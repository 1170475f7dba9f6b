-- ===== src/Tasks/Ids.antt =====
-- The ids of the tasks of src/pyclaw/infra/task_manager.py, and that no two numbers share one.
use pyclaw.Prelude.{
  ℕ, zero, suc, ◌-◌, Text, decimal, [], ◌∷◌, ◌≡◌, refl, ap, sym, ◌∙◌, digits_value,
  digits_value-decimal, length,
}

unfoldable pub zeros : ℕ → Text → Text
zeros zero t = t
zeros (suc n) t = 48 ∷ zeros n t

-- f"t{n:06d}"
unfoldable pub task_id : ℕ → Text
unfolding zeros
task_id n = 116 ∷ zeros (6 - length (decimal n)) (decimal n)

-- The number that an id stands for.
task_number : Text → ℕ
task_number [] = 0
task_number (c ∷ t) = digits_value 0 t

digits_value-zeros : (n : ℕ) (t : Text) → digits_value 0 (zeros n t) ≡ digits_value 0 t
unfolding digits_value zeros
digits_value-zeros zero t = refl
digits_value-zeros (suc n) t = digits_value-zeros n t

task_number-task_id : (n : ℕ) → task_number (task_id n) ≡ n
unfolding task_number task_id
task_number-task_id n =
    digits_value-zeros (6 - length (decimal n)) (decimal n) ∙ digits_value-decimal n

pub task_id_inj : (m n : ℕ) → task_id m ≡ task_id n → m ≡ n
task_id_inj m n h = sym (task_number-task_id m) ∙ ap task_number h ∙ task_number-task_id n

-- ===== src/Tests/Registry.antt =====
-- Tests of the registry.
use riotsensors.Prelude.{ℕ, ◌<◌, ◌≡◌, ◌↔◌, refl, [], ◌∷◌, none, some, arith}
use riotsensors.Prelude.Int.{ℤ, pos}
use riotsensors.CString.{c_str, strlen, isalnum, strcpy}
use riotsensors.Constants.{rs_unregister_success, rs_unregister_notfound}
use riotsensors.Registry.{
  RegisteredLambda, Registry, initial, all_alnum, find_name, name_accepted,
  get_registered_lambda_by_id, get_registered_lambda_by_name, lambda_registry_register,
  lambda_registry_unregister,
}
use riotsensors.Registry.Lookup.{name_of}
use riotsensors.Registry.Names.{IsName, name_accepted_iff}
use riotsensors.Registry.Register.{IsTaken, Registers, lambda_registry_register-Registers}
use riotsensors.Registry.Invariant.{
  IsValid, register, unregister, free, run, step, initial-IsValid, run-IsValid,
}
use riotsensors.Registry.Contract.{Adds, by_name_iff, register-Adds}
use riotsensors.Registry.Removal.{Removes, unregister-Removes}
use riotsensors.Registry.Histories.{ids_ascend}
use riotsensors.Registry.Limits.{twelve_characters_lost}
use riotsensors.Tests.Data.{temp, hum, twelve, block, temp_lambda, one, one-IsValid}

-- A lambda that is registered, removed and registered again.
run-IsValid_example : IsValid (
    run
      (one 1 7)
      (unregister 0 ∷ register hum 2 1 8 (some block) ∷ register temp 1 1 9 none ∷ free ∷ []))
run-IsValid_example =
    run-IsValid (one 1 7)
      (unregister 0 ∷ register hum 2 1 8 (some block) ∷ register temp 1 1 9 none ∷ free ∷ [])
      (tt, (refl, (tt, (tt, tt)))) (one-IsValid 1 7)

by_name_iff_example :
    (get_registered_lambda_by_name (one 1 7) temp ≡ some (temp_lambda 1 7))
    ↔ (name_of (temp_lambda 1 7) ≡ c_str temp)
unfolding get_registered_lambda_by_id c_str
by_name_iff_example =
    by_name_iff (one 1 7) 0 (temp_lambda 1 7) temp (one-IsValid 1 7) refl (omega arith)

register-Adds_example :
    (l : RegisteredLambda ℕ) × Adds initial (one 1 7) 0 l
    × (l.id ≡ 0)
    × (name_of l ≡ c_str temp)
    × (l.type ≡ 1)
    × (l.cache ≡ 1)
    × (l.arg ≡ 7)
unfolding lambda_registry_register c_str name_accepted strlen all_alnum isalnum
    get_registered_lambda_by_name find_name strcpy
register-Adds_example =
    register-Adds initial (one 1 7) temp 1 1 7 (some block) 0 initial-IsValid refl (omega arith)
      refl

unregister-Removes_example :
    (r' : Registry ℕ) × (lambda_registry_unregister (one 1 7) 0 ≡ (r', rs_unregister_success))
    × Removes (one 1 7) r' 0 (temp_lambda 1 7)
    × (lambda_registry_unregister r' 0 ≡ (r', rs_unregister_notfound))
unfolding get_registered_lambda_by_id
unregister-Removes_example = unregister-Removes (one 1 7) 0 (temp_lambda 1 7) (one-IsValid 1 7) refl

register-Registers_example :
    Registers
      (one 1 7)
      temp
      2
      1
      8
      (some block)
      (lambda_registry_register (one 1 7) temp 2 1 8 (some block))
register-Registers_example =
    lambda_registry_register-Registers (one 1 7) temp 2 1 8 (some block) refl

-- The second registration, after the removal of the first.
ids_ascend_example : 0 < 1
unfolding lambda_registry_register c_str name_accepted strlen all_alnum isalnum
    get_registered_lambda_by_name find_name strcpy run step lambda_registry_unregister
ids_ascend_example =
    ids_ascend initial (one 1 7)
      (lambda_registry_register (run (one 1 7) (unregister 0 ∷ [])) temp 1 1 9 (some block)).0
      (unregister 0 ∷ []) temp temp 1 1 1 1 7 9 (some block) (some block) 0 1 initial-IsValid refl
      (tt, tt) tt refl refl

not-IsTaken-twelve : ¬ IsTaken (initial {A = ℕ}) (c_str twelve)
not-IsTaken-twelve (i, l, lt, at, same) = omega arith

twelve-IsName : IsName (c_str twelve)
unfolding name_accepted strlen c_str all_alnum isalnum
twelve-IsName = (name_accepted_iff twelve).0 refl

abbrev lost : Registry ℕ × ℤ
lost = lambda_registry_register initial twelve 1 1 7 (some block)

twelve_characters_lost_example :
    (lost.1 ≡ pos 0) × (get_registered_lambda_by_name lost.0 twelve ≡ none)
unfolding c_str
twelve_characters_lost_example =
    twelve_characters_lost initial twelve 1 1 7 block initial-IsValid (omega arith) twelve-IsName
      refl (λ e. omega arith) not-IsTaken-twelve refl

-- ===== src/Sdk/Registry/Tests.antt =====
-- The theorems at concrete inputs.
use nivalo_esp.Sdk.Registry.{
  SdkRegistry, RegisteredFunction, default_metadata, find_in, add_function,
}
use nivalo_esp.Sdk.Registry.Names.{IsValid, IsRegistered, add_function-found}
use nivalo_esp.Common.{pos, ℕ, ◌≡◌, ◌⊎◌, refl, true, false, arith, [], ◌∷◌, none, some, codes}

abbrev blink : RegisteredFunction ℕ
blink = record {
  name = codes "blink";
  display_name = [];
  description = [];
  argument_example = [];
  return_type = codes "integer";
  danger_level = codes "safe";
  timeout_seconds = 30;
  sort_order = pos 0;
  handler = 1;
}

abbrev one_function : SdkRegistry ℕ ℕ ℕ
one_function = record { functions = blink ∷ []; variables = []; command_handler = none }

one_function-IsValid : IsValid one_function
unfolding find_in
one_function-IsValid = record {
  function_count = omega arith;
  variable_count = omega arith;
  functions = (refl, tt);
  variables = tt;
}

add_function-found_example :
    (add_function one_function (some (codes "beep")) (some 2) default_metadata
      ≡ (false, one_function))
    ⊎ (((add_function one_function (some (codes "beep")) (some 2) default_metadata).0 ≡ true)
        × (IsValid (add_function one_function (some (codes "beep")) (some 2) default_metadata).1
            × IsRegistered one_function one_function-IsValid
                (codes "beep")
                2
                default_metadata
                (add_function one_function (some (codes "beep")) (some 2) default_metadata).1))
add_function-found_example =
    add_function-found one_function one_function-IsValid (codes "beep") 2 default_metadata

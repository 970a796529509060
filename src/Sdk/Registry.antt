-- ===== src/Sdk/Registry.antt =====
-- src/NivaloSdkRegistry.{h,cpp}: the functions and variables of an application. Handlers and the
-- variables' memory are parameters.
pub mod Names
mod Tests
use nivalo_esp.Common.{
  pos, negsuc, ℤ, ℕ, Bool, true, false, not, ◌&&◌, ◌||◌, List, [], ◌∷◌, ◌++◌, Option, none, some,
  length, get_elem?, ltb, leb, if◌then◌else◌, is_some, Text, codes, text_eq, is_empty, or_empty,
}

abbrev pub max_functions : ℕ
max_functions = 8

abbrev pub max_variables : ℕ
max_variables = 12

pub record FunctionMetadata : Type 0 where
  pub display_name : Option Text
  pub description : Option Text
  pub argument_example : Option Text
  pub return_type : Option Text
  pub timeout_seconds : ℕ
  pub danger_level : Option Text
  pub sort_order : ℤ

pub default_metadata : FunctionMetadata
default_metadata = record {
  display_name = none;
  description = none;
  argument_example = none;
  return_type = some (codes "integer");
  timeout_seconds = 30;
  danger_level = some (codes "safe");
  sort_order = negsuc 0;
}

pub data VariableType : Type 0 where
  int : VariableType
  uint : VariableType
  long : VariableType
  ulong : VariableType
  float : VariableType
  double : VariableType
  bool : VariableType
  string : VariableType

pub record RegisteredFunction (H : Type 0) : Type 0 where
  pub name : Text
  pub display_name : Text
  pub description : Text
  pub argument_example : Text
  pub return_type : Text
  pub danger_level : Text
  pub timeout_seconds : ℕ
  pub sort_order : ℤ
  pub handler : H

pub record RegisteredVariable (R : Type 0) : Type 0 where
  pub name : Text
  pub unit : Text
  pub reference : R
  pub type : VariableType

-- The functions and variables that are counted, and the command handler.
pub record SdkRegistry (H R C : Type 0) : Type 0 where
  pub functions : List (RegisteredFunction H)
  pub variables : List (RegisteredVariable R)
  pub command_handler : Option C

pub valid_name : Option Text → Bool
valid_name none = false
valid_name (some name) = not (is_empty name) && leb (length name) 64

pub valid_function_metadata : FunctionMetadata → Bool
valid_function_metadata metadata =
    if ltb metadata.timeout_seconds 1
      || ltb 600 metadata.timeout_seconds
      || is_empty (or_empty metadata.danger_level)
    then false
    else (let level = or_empty metadata.danger_level in
        text_eq level (codes "safe")
        || text_eq level (codes "operational")
        || text_eq level (codes "disruptive")
        || text_eq level (codes "dangerous"))

abbrev pub is_negative : ℤ → Bool
is_negative (pos n) = false
is_negative (negsuc n) = true

unfoldable pub find_in :
    {H : Type 0} → Text → List (RegisteredFunction H) → Option (RegisteredFunction H)
find_in name [] = none
find_in name (f ∷ rest) =
    let later = find_in name rest in if text_eq f.name name then some f else later

-- The loop in `addVariable`.
pub has_variable : {R : Type 0} → Text → List (RegisteredVariable R) → Bool
has_variable name [] = false
has_variable name (v ∷ rest) = text_eq v.name name || has_variable name rest

module _ {H R C : Type 0} where
  unfoldable pub find_function : SdkRegistry H R C → Option Text → Option (RegisteredFunction H)
  unfolding find_in
  find_function r none = none
  find_function r (some name) = find_in name r.functions

  pub add_function :
      SdkRegistry H R C → Option Text → Option H → FunctionMetadata → Bool × SdkRegistry H R C
  unfolding valid_name valid_function_metadata find_function
  add_function r name none metadata = (false, r)
  add_function r name (some handler) metadata =
      let count = length r.functions in
      if not (valid_name name)
        || leb max_functions count
        || is_some (find_function r name)
        || not (valid_function_metadata metadata)
      then (false, r)
      else (
        true,
        record r {
          functions =
              r.functions
              ++ (record {
                name = or_empty name;
                display_name = or_empty metadata.display_name;
                description = or_empty metadata.description;
                argument_example = or_empty metadata.argument_example;
                return_type = or_empty metadata.return_type;
                danger_level = or_empty metadata.danger_level;
                timeout_seconds = metadata.timeout_seconds;
                sort_order =
                    if is_negative metadata.sort_order then pos count else metadata.sort_order;
                handler = handler;
              })
                ∷ [];
        },
      )

  pub add_function_default : SdkRegistry H R C → Option Text → Option H → Bool × SdkRegistry H R C
  unfolding add_function default_metadata
  add_function_default r name handler = add_function r name handler default_metadata

  pub add_variable :
      SdkRegistry H R C
      → Option Text
      → Option R
      → VariableType
      → Option Text
      → Bool × SdkRegistry H R C
  unfolding valid_name has_variable
  add_variable r name none type unit = (false, r)
  add_variable r name (some reference) type unit =
      if not (valid_name name) || leb max_variables (length r.variables)
      then (false, r)
      else (if has_variable (or_empty name) r.variables then (false, r) else (
        true,
        record r {
          variables =
              r.variables
              ++ (record {
                name = or_empty name;
                unit = or_empty unit;
                reference = reference;
                type = type;
              })
                ∷ [];
        },
      ))

  pub set_command_handler : SdkRegistry H R C → Option C → SdkRegistry H R C
  set_command_handler r handler = record r { command_handler = handler }

-- What the variables hold: a number as `String` writes it, with six decimals for the two floating
-- types.
pub record Memory (R : Type 0) : Type 0 where
  pub number : VariableType → R → Text
  pub truth : R → Bool
  pub text : R → Text

module _ {H R C : Type 0} where
  -- `none` is `return false`.
  pub format_variable_value : Memory R → SdkRegistry H R C → ℕ → Option Text
  format_variable_value memory r index = elim (get_elem? r.variables index) [
    | none ↦ none
    | some v ↦ some (elim v.type [
      | bool ↦ if memory.truth v.reference then codes "true" else codes "false"
      | string ↦ memory.text v.reference
      | int ↦ memory.number int v.reference
      | uint ↦ memory.number uint v.reference
      | long ↦ memory.number long v.reference
      | ulong ↦ memory.number ulong v.reference
      | float ↦ memory.number float v.reference
      | double ↦ memory.number double v.reference
    ])
  ]

  pub variable_data_type : SdkRegistry H R C → ℕ → Text
  variable_data_type r index = elim (get_elem? r.variables index) [
    | none ↦ codes "string"
    | some v ↦ elim v.type [
      | bool ↦ codes "boolean"
      | string ↦ codes "string"
      | int ↦ codes "number"
      | uint ↦ codes "number"
      | long ↦ codes "number"
      | ulong ↦ codes "number"
      | float ↦ codes "number"
      | double ↦ codes "number"
    ]
  ]

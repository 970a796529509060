-- ===== src/Sdk/Registry/Names.antt =====
-- The names of a registry.
use nivalo_esp.Sdk.Registry.{
  is_negative, valid_function_metadata, SdkRegistry, RegisteredFunction, FunctionMetadata, find_in,
  find_function, add_function, valid_name, has_variable, add_variable, RegisteredVariable,
  VariableType,
}
use nivalo_esp.Common.{
  length-append, pos, ℕ, ◌≤◌, ◌<◌, ◌≡◌, ◌⊎◌, inl, inr, refl, subst, ◌∙◌, Bool, true, false, not,
  ◌||◌, arith, List, [], ◌∷◌, ◌++◌, Option, none, some, length, leb, if◌then◌else◌, is_some, Text,
  text_eq, text_eq_iff, or_empty, text_eq_comm, if_cases, length-append, pos,
}

-- No two functions have one name.
abbrev pub DistinctFunctions : {H : Type 0} → List (RegisteredFunction H) → Type 0
DistinctFunctions [] = Unit
DistinctFunctions (f ∷ rest) = (find_in f.name rest ≡ none) × DistinctFunctions rest

abbrev pub DistinctVariables : {R : Type 0} → List (RegisteredVariable R) → Type 0
DistinctVariables [] = Unit
DistinctVariables (v ∷ rest) = (has_variable v.name rest ≡ false) × DistinctVariables rest

pub record IsValid {H R C : Type 0} (r : SdkRegistry H R C) : Type 0 where
  pub function_count : length r.functions ≤ 8
  pub variable_count : length r.variables ≤ 12
  pub functions : DistinctFunctions r.functions
  pub variables : DistinctVariables r.variables

find_in-append :
    {H : Type 0} (name : Text) (fs : List (RegisteredFunction H)) (f : RegisteredFunction H)
    → find_in f.name fs ≡ none
    → find_in name (fs ++ f ∷ []) ≡ (if text_eq f.name name then some f else find_in name fs)
unfolding find_in
find_in-append name [] f new = refl
find_in-append name (g ∷ fs) f new =
    let later = find_in-append name fs f (ground arith) in
    let apart : text_eq f.name name ≡ true → text_eq g.name name ≡ false =
      λ e. subst (λ n. text_eq g.name n ≡ false) ((text_eq_iff f.name name).0 e) (ground arith) in
    ground arith

DistinctFunctions-append :
    {H : Type 0} (fs : List (RegisteredFunction H)) (f : RegisteredFunction H)
    → DistinctFunctions fs
    → find_in f.name fs ≡ none
    → DistinctFunctions (fs ++ f ∷ [])
unfolding find_in
DistinctFunctions-append [] f d new = (refl, tt)
DistinctFunctions-append (g ∷ fs) f d new =
    let new' : find_in f.name fs ≡ none = ground arith in
    let apart : text_eq f.name g.name ≡ false = text_eq_comm f.name g.name ∙ ground arith in
    (find_in-append g.name fs f new' ∙ rw apart d.0, DistinctFunctions-append fs f d.1 new')

has_variable-append :
    {R : Type 0} (name : Text) (vs : List (RegisteredVariable R)) (v : RegisteredVariable R)
    → has_variable name (vs ++ v ∷ []) ≡ (has_variable name vs || text_eq v.name name)
unfolding has_variable
has_variable-append name [] v = ground arith
has_variable-append name (w ∷ vs) v = ground (arith, has_variable-append name vs v)

DistinctVariables-append :
    {R : Type 0} (vs : List (RegisteredVariable R)) (v : RegisteredVariable R)
    → DistinctVariables vs
    → has_variable v.name vs ≡ false
    → DistinctVariables (vs ++ v ∷ [])
unfolding has_variable
DistinctVariables-append [] v d new = (refl, tt)
DistinctVariables-append (w ∷ vs) v d new =
    let new' : has_variable v.name vs ≡ false = ground arith in
    let apart : text_eq v.name w.name ≡ false = text_eq_comm v.name w.name ∙ ground arith in
    (has_variable-append w.name vs v ∙ rw (d.0, apart) refl, DistinctVariables-append vs v d.1 new')

room : (b : Bool) (n m : ℕ) → (b || leb n m) ≡ false → m < n
room b n m e = ground arith

module _ {H R C : Type 0} (r : SdkRegistry H R C) (v : IsValid r) where
  -- Registering a variable leaves a valid registry valid.
  pub add_variable-IsValid :
      (name : Option Text) (reference : Option R) (type : VariableType) (unit : Option Text)
      → IsValid (add_variable r name reference type unit).1
  unfolding add_variable
  add_variable-IsValid name none type unit = v
  add_variable-IsValid name (some reference) type unit =
      if_cases (λ (p : Bool × SdkRegistry H R C). IsValid p.1)
        (not (valid_name name) || leb 12 (length r.variables)) _ _ (λ e. v)
        (λ e.
          if_cases (λ (p : Bool × SdkRegistry H R C). IsValid p.1)
            (has_variable (or_empty name) r.variables) _ _ (λ k. v)
            (λ new.
              let w : RegisteredVariable R = record {
                name = or_empty name;
                unit = or_empty unit;
                reference = reference;
                type = type;
              } in
              record {
                function_count = v.function_count;
                variable_count = omega (
                  arith,
                  length-append r.variables (w ∷ []),
                  room (not (valid_name name)) 12 (length r.variables) e,
                );
                functions = v.functions;
                variables = DistinctVariables-append r.variables w v.variables new;
              }))

  -- A function that is registered.
  abbrev Added : RegisteredFunction H → SdkRegistry H R C
  Added f = record r { functions = r.functions ++ f ∷ [] }

  Added-IsValid :
      (f : RegisteredFunction H)
      → length r.functions < 8
      → find_in f.name r.functions ≡ none
      → IsValid (Added f)
  Added-IsValid f h new = record {
    function_count = omega (arith, length-append r.functions (f ∷ []));
    variable_count = v.variable_count;
    functions = DistinctFunctions-append r.functions f v.functions new;
    variables = v.variables;
  }

  -- What is found after a registration.
  pub record IsRegistered (name : Text) (handler : H) (metadata : FunctionMetadata)
      (r' : SdkRegistry H R C) : Type 0 where
    pub entry : RegisteredFunction H
    pub named : entry.name ≡ name
    pub handled : entry.handler ≡ handler
    pub timeout : entry.timeout_seconds ≡ metadata.timeout_seconds
    pub found :
        (other : Text)
        → find_function r' (some other)
          ≡ (if text_eq name other then some entry else find_function r (some other))

  -- A registration of a function in a valid registry either is refused and changes nothing, or leaves
  -- the registry valid, and then the function is found under its name with its handler and timeout,
  -- and what is found under any other name is as before.
  pub add_function-found :
      (name : Text) (handler : H) (metadata : FunctionMetadata)
      → (add_function r (some name) (some handler) metadata ≡ (false, r))
        ⊎ (((add_function r (some name) (some handler) metadata).0 ≡ true)
            × (IsValid (add_function r (some name) (some handler) metadata).1
                × IsRegistered name handler metadata
                    (add_function r (some name) (some handler) metadata).1))
  unfolding add_function
  add_function-found name handler metadata =
      if_cases
        (λ (p : Bool × SdkRegistry H R C).
          (p ≡ (false, r))
          ⊎ ((p.0 ≡ true) × (IsValid p.1 × IsRegistered name handler metadata p.1)))
        (not (valid_name (some name))
          || leb 8 (length r.functions)
          || is_some (find_in name r.functions)
          || not (valid_function_metadata metadata))
        _ _ (λ e. inl refl)
        (λ e.
          let f : RegisteredFunction H = record {
            name = name;
            display_name = or_empty metadata.display_name;
            description = or_empty metadata.description;
            argument_example = or_empty metadata.argument_example;
            return_type = or_empty metadata.return_type;
            danger_level = or_empty metadata.danger_level;
            timeout_seconds = metadata.timeout_seconds;
            sort_order =
                if is_negative metadata.sort_order
                then pos (length r.functions)
                else metadata.sort_order;
            handler = handler;
          } in
          let new : find_in name r.functions ≡ none = ground arith in
          inr (
            refl,
            (
              Added-IsValid f (ground arith) new,
              record {
                entry = f;
                named = refl;
                handled = refl;
                timeout = refl;
                found = λ other. unfold find_function in find_in-append other r.functions f new;
              },
            ),
          ))

-- ===== src/Plugins/Syntax.antt =====
-- What the plugins read of a program in C++. The compilers are no part of the repository: a class is given by the
-- answers that their calls give for it.
use kokkos_kernel_forge.Base.{
  ℕ, ◌≡◌, refl, Bool, true, false, Option, none, some, List, [], ◌∷◌, String,
}
use kokkos_kernel_forge.Base.Text.{Text, text, text_eq}
use kokkos_kernel_forge.Base.Result.{Result, ok, err}

-- A scope around a declaration; the last kind is a class or a function.
pub data Scope : Type 0 where
  namespace_scope : Text → Scope
  anonymous_namespace inner_scope : Scope

-- The type of a variable. A class is a number in the table of classes.
pub data CxxType : Type 0 where
  class_type reference_type : ℕ → CxxType
  other_type : CxxType

-- A member of a class, in the order of its layout: a base class, a data member, or something else, such as a
-- function or a static variable.
pub data Member : Type 0 where
  base_member : ℕ → Member
  field_member : Text → CxxType → Member
  other_member : Member

pub record Method : Type 0 where
  pub name : Text
  pub param_size : ℕ
  pub is_static : Bool

-- The scopes around the class are given from the inside out. `aliases` has the types that the class names.
pub record ClassDecl : Type 0 where
  pub name : Text
  pub scopes : List Scope
  pub is_union : Bool
  pub members : List Member
  pub methods : List Method
  pub aliases : List (Text × CxxType)

abbrev pub Classes : Type 0
Classes = ℕ → ClassDecl

-- A part of an object: a base or a field. A path leads from the functor to a part of it.
pub data Part : Type 0 where
  base_part : ℕ → Part
  field_part : Text → Part

abbrev pub FieldPath : Type 0
FieldPath = List Part

-- The member expression for the view, and the class of its memory space.
pub record ViewInfo : Type 0 where
  pub root : FieldPath
  pub memory_space : ℕ

-- A statement of the body of `replay_functor`: one that a plugin adds, or one that is there.
pub data Statement : Type 0 where
  clear_registered_views_call : Statement
  register_view_call : ViewInfo → Statement
  statement : ℕ → Statement

-- What a plugin comes to: a value, or an error: the line that it prints before an `abort`, or a null
-- pointer that is read. `none` is a visit that has used up
-- its fuel.
abbrev pub Outcome : Type 0 → Type 0
Outcome A = Option (Result A)

abbrev pub Found : Type 0
Found = Outcome (List ViewInfo)

abbrev pub and_then : {A B : Type 0} → Outcome A → (A → Outcome B) → Outcome B
and_then none rest = none
and_then (some (err e)) rest = some (err e)
and_then (some (ok value)) rest = rest value

pub and_then-eq-ok :
    {A B : Type 0} (first : Outcome A) (rest : A → Outcome B) {b : B}
    → and_then first rest ≡ some (ok b)
    → (a : A) × (first ≡ some (ok a)) × (rest a ≡ some (ok b))
and_then-eq-ok none rest h = cc
and_then-eq-ok (some (err what)) rest h = cc
and_then-eq-ok (some (ok a)) rest h = (a, refl, h)

-- A loop that adds to the views.
unfoldable pub each : {A : Type 0} → (A → List ViewInfo → Found) → List A → List ViewInfo → Found
each visit [] views = some (ok views)
each visit (x ∷ xs) views = and_then (visit x views) (each visit xs)

-- A search whose failure ends in an `abort`.
abbrev pub required : {A : Type 0} → String → Option A → Result A
required what none = err (text what)
required what (some value) = ok value

-- `dyn_cast` of LLVM, which must not be given a null pointer; what is not null has the kind that was looked for.
abbrev pub dyn_cast : {A : Type 0} → Option A → Result (Option A)
dyn_cast none = err (text "dyn_cast of a null pointer")
dyn_cast (some decl) = ok (some decl)

abbrev pub is_named : Text → String → Bool
is_named name expected = text_eq name (text expected)

-- What a visit does with the answer of `visit_view`.
abbrev pub unless_view : Result (Bool × List ViewInfo) → (List ViewInfo → Found) → Found
unless_view (err e) enter = some (err e)
unless_view (ok (true, views)) enter = some (ok views)
unless_view (ok (false, views)) enter = enter views

-- A function of the program, without its body.
pub record FunctionDecl : Type 0 where
  pub name : Text
  pub scopes : List Scope
  pub params : List CxxType

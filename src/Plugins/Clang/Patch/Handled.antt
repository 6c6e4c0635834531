-- ===== src/Plugins/Clang/Patch/Handled.antt =====
-- What `HandleTopLevelDecl` of src/krepe/compiler_plugins/clang.cpp does with a group of declarations.
use kokkos_kernel_forge.Base.{
  ℕ, ◌≡◌, ◌↔◌, subst, sym, String, arith, inl, inr, true, Option, none, some, List, [], ◌∷◌,
  Bool-cases,
}
use kokkos_kernel_forge.Base.Text.{text, text_eq_iff, text_eq_refl}
use kokkos_kernel_forge.Base.Result.{ok}
use kokkos_kernel_forge.Plugins.Syntax.{
  Scope, inner_scope, anonymous_namespace, namespace_scope, Classes, Statement, Outcome, and_then,
  and_then-eq-ok, FunctionDecl,
}
use kokkos_kernel_forge.Plugins.Clang.{enclosing_namespace, is_namespace}
use kokkos_kernel_forge.Plugins.Clang.Patch.{
  ImplFunction, patch_replay_functor, is_replay_functor, handle_top_level_decl,
}

-- The innermost scope that is not a class or a function is the namespace of that name.
pub data NearestNamespace (expected : String) : List Scope → Type 0 where
  here :
      {scopes : List Scope} → NearestNamespace expected (namespace_scope (text expected) ∷ scopes)
  further :
      {scopes : List Scope}
      → NearestNamespace expected scopes
      → NearestNamespace expected (inner_scope ∷ scopes)

-- `krepe::replay_functor`
abbrev pub IsReplayFunctor : FunctionDecl → Type 0
IsReplayFunctor function =
    (function.name ≡ text "replay_functor") × NearestNamespace "krepe" function.scopes

NearestNamespace-is_namespace :
    (expected : String) (scopes : List Scope)
    → NearestNamespace expected scopes
    → is_namespace expected (enclosing_namespace scopes) ≡ true
unfolding is_namespace enclosing_namespace
NearestNamespace-is_namespace expected scopes here = text_eq_refl (text expected)
NearestNamespace-is_namespace expected scopes (further n) =
    NearestNamespace-is_namespace expected _ n

is_namespace-NearestNamespace :
    (expected : String) (scopes : List Scope)
    → is_namespace expected (enclosing_namespace scopes) ≡ true
    → NearestNamespace expected scopes
unfolding is_namespace enclosing_namespace
is_namespace-NearestNamespace expected [] e = cc
is_namespace-NearestNamespace expected (anonymous_namespace ∷ scopes) e = cc
is_namespace-NearestNamespace expected (inner_scope ∷ scopes) e =
    further (is_namespace-NearestNamespace expected scopes e)
is_namespace-NearestNamespace expected (namespace_scope name ∷ scopes) e =
    subst (λ n. NearestNamespace expected (namespace_scope n ∷ scopes))
      (sym ((text_eq_iff name (text expected)).0 e)) here

is_replay_functor_iff :
    (function : FunctionDecl) → (is_replay_functor function ≡ true) ↔ IsReplayFunctor function
unfolding is_replay_functor
is_replay_functor_iff function =
    let named = text_eq_iff function.name (text "replay_functor") in
    let near = is_namespace-NearestNamespace "krepe" function.scopes in
    let back = NearestNamespace-is_namespace "krepe" function.scopes in
    ground (arith, named, near, back)

module _ (classes : Classes) (impl : Option (List ImplFunction)) (fuel : ℕ) where
  -- A declaration is left as it is, or is a `krepe::replay_functor` and patched.
  pub data Handled : Option (FunctionDecl × ℕ) → Option (List Statement) → Type 0 where
    no_function : Handled none none
    other_function :
        {function : FunctionDecl} {body : ℕ}
        → ¬ IsReplayFunctor function
        → Handled (some (function, body)) none
    patched_function :
        {function : FunctionDecl} {body : ℕ} {stmts : List Statement}
        → IsReplayFunctor function
        → patch_replay_functor classes impl fuel function body ≡ some (ok stmts)
        → Handled (some (function, body)) (some stmts)

  pub data HandledAll
      : List (Option (FunctionDecl × ℕ)) → List (Option (List Statement)) → Type 0 where
    no_decls : HandledAll [] []
    next_decl :
        {decl : Option (FunctionDecl × ℕ)} {body : Option (List Statement)}
        {group : List (Option (FunctionDecl × ℕ))} {bodies : List (Option (List Statement))}
        → Handled decl body
        → HandledAll group bodies
        → HandledAll (decl ∷ group) (body ∷ bodies)

  HandledAll-and_then :
      {decl : Option (FunctionDecl × ℕ)} {group : List (Option (FunctionDecl × ℕ))}
      (body : Option (List Statement)) (rest : Outcome (List (Option (List Statement))))
      (bodies : List (Option (List Statement)))
      → Handled decl body
      → ((more : List (Option (List Statement))) → rest ≡ some (ok more) → HandledAll group more)
      → and_then rest (λ more. some (ok (body ∷ more))) ≡ some (ok bodies)
      → HandledAll (decl ∷ group) bodies
  HandledAll-and_then {decl} {group} body rest bodies first later done =
      let (more, e, f) = and_then-eq-ok rest (λ more. some (ok (body ∷ more))) done in
      subst (HandledAll (decl ∷ group)) (same (body ∷ more) f) (next_decl first (later more e))
    where
      same :
          (found : List (Option (List Statement)))
          → ◌≡◌ {A = Outcome (List (Option (List Statement)))} (some (ok found)) (some (ok bodies))
          → found ≡ bodies
      same found e = cc

  -- When a group of declarations is handled with no `abort`, each function named `replay_functor` whose nearest
  -- namespace is `krepe` is given the body that `patch_replay_functor` makes for it, and every other declaration
  -- is left as it is.
  pub handle_top_level_decl-HandledAll :
      (group : List (Option (FunctionDecl × ℕ))) (bodies : List (Option (List Statement)))
      → handle_top_level_decl classes impl fuel group ≡ some (ok bodies)
      → HandledAll group bodies
  unfolding handle_top_level_decl
  handle_top_level_decl-HandledAll [] bodies done = subst (HandledAll []) (cc done) no_decls
  handle_top_level_decl-HandledAll (none ∷ group) bodies done =
      HandledAll-and_then none (handle_top_level_decl classes impl fuel group) bodies no_function
        (handle_top_level_decl-HandledAll group) done
  handle_top_level_decl-HandledAll (some (function, body) ∷ group) bodies done =
      elim (Bool-cases (is_replay_functor function)) [
        | inr other ↦
            HandledAll-and_then none (handle_top_level_decl classes impl fuel group) bodies
              (other_function λ ours. let no = (is_replay_functor_iff function).1 ours in cc)
              (handle_top_level_decl-HandledAll group) (rw other at done)
        | inl ours ↦
            let (stmts, patched, rest) =
              and_then-eq-ok (patch_replay_functor classes impl fuel function body) _
                (rw ours at done) in
            HandledAll-and_then (some stmts) (handle_top_level_decl classes impl fuel group) bodies
              (patched_function ((is_replay_functor_iff function).0 ours) patched)
              (handle_top_level_decl-HandledAll group) rest
      ]

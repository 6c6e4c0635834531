-- ===== src/Plugins/Run.antt =====
-- The run of a body that a plugin has made, through the functions of src/krepe/extract/kernel_extractor.cpp.
use kokkos_kernel_forge.Base.{
  ℕ, true, ◌≡◌, ◌∙◌, refl, sym, ap, Option, none, some, List, [], ◌∷◌, ◌++◌, map,
}
use kokkos_kernel_forge.Base.Text.{Text}
use kokkos_kernel_forge.Extract.Functions.{
  Loader, Program, Call, clear_registered_views, register_view,
}
use kokkos_kernel_forge.Extract.Launch.{◌then_call◌, register_views, copy_bytes, replay_functor}
use kokkos_kernel_forge.Plugins.Syntax.{
  ViewInfo, Statement, clear_registered_views_call, register_view_call, statement,
}

-- The arguments of a call for a view: `data()` of the view that the path leads to, and `name()` of its memory space.
-- `execute` is what a statement of the program does.
module _ (l : Loader) (arguments : ViewInfo → ℕ × Text) (execute : ℕ → Call (Unit {0})) where
  unfoldable pub run_statement : Statement → Call (Unit {0})
  run_statement clear_registered_views_call p = clear_registered_views l p
  run_statement (register_view_call view) p =
      let (address, space) = arguments view in register_view l address space p
  run_statement (statement s) p = execute s p

  unfoldable pub run : List Statement → Call (Unit {0})
  unfolding run_statement
  run [] p = some (tt, p)
  run (s ∷ body) p = run_statement s p then_call run body

  then_call-run :
      (called : Option ((Unit {0}) × Program)) (xs ys : List Statement)
      → ((p : Program) → run (xs ++ ys) p ≡ (run xs p then_call run ys))
      → (called then_call run (xs ++ ys)) ≡ (called then_call run xs then_call run ys)
  then_call-run none xs ys later = refl
  then_call-run (some (u, p)) xs ys later = later p

  run-append :
      (xs ys : List Statement) (p : Program) → run (xs ++ ys) p ≡ (run xs p then_call run ys)
  unfolding run
  run-append [] ys p = refl
  run-append (x ∷ xs) ys p = then_call-run (run_statement x p) xs ys (run-append xs ys)

  then_call-views :
      (called : Option ((Unit {0}) × Program)) (views : List ViewInfo)
      → ((p : Program)
          → run (map register_view_call views) p ≡ register_views l (map arguments views) p)
      → (called then_call run (map register_view_call views))
        ≡ (called then_call register_views l (map arguments views))
  then_call-views none views later = refl
  then_call-views (some (u, p)) views later = later p

  run-views :
      (views : List ViewInfo) (p : Program)
      → run (map register_view_call views) p ≡ register_views l (map arguments views) p
  unfolding run register_views
  run-views [] p = refl
  run-views (view ∷ views) p =
      then_call-views (run_statement (register_view_call view) p) views (run-views views)

  -- A body that begins with the calls of a plugin clears the views of the tool, registers those that the plugin has
  -- found, in their order, and goes on with the statements behind.
  pub run-body :
      (views : List ViewInfo) (rest : List Statement) (p : Program)
      → run (clear_registered_views_call ∷ (map register_view_call views ++ rest)) p ≡ (
          clear_registered_views l p
          then_call register_views l (map arguments views)
          then_call run rest)
  unfolding run
  run-body views rest p = called (clear_registered_views l p)
    where
      called :
          (first : Option ((Unit {0}) × Program))
          → (first then_call run (map register_view_call views ++ rest))
            ≡ (first then_call register_views l (map arguments views) then_call run rest)
      called none = refl
      called (some (u, q)) =
          run-append (map register_view_call views) rest q
          ∙ ap (λ done. done then_call run rest) (run-views views q)

  then_call-same :
      (called : Option ((Unit {0}) × Program)) (f g : Call (Unit {0}))
      → ((p : Program) → f p ≡ g p)
      → (called then_call f) ≡ (called then_call g)
  then_call-same none f g same = refl
  then_call-same (some (u, p)) f g same = same p

  -- With statements that copy the bytes of a functor, that is `replay_functor` in a program that was built with a
  -- plugin.
  pub run-replay_functor :
      (views : List ViewInfo) (rest : List Statement) (bytes : List ℕ)
      (host_lambda : Option (List ℕ)) (p : Program)
      → ((q : Program) → run rest q ≡ copy_bytes l bytes host_lambda q)
      → run (clear_registered_views_call ∷ (map register_view_call views ++ rest)) p
        ≡ replay_functor l true
            (record { bytes = bytes; host_lambda = host_lambda; views = map arguments views })
            p
  unfolding replay_functor
  run-replay_functor views rest bytes host_lambda p copies =
      run-body views rest p
      ∙ then_call-same (clear_registered_views l p then_call register_views l (map arguments views))
          (run rest) (copy_bytes l bytes host_lambda) copies

  -- Statements that do the same do the same behind the calls.
  pub run-same :
      (views : List ViewInfo) (rest others : List Statement) (p : Program)
      → ((q : Program) → run rest q ≡ run others q)
      → run (clear_registered_views_call ∷ (map register_view_call views ++ rest)) p
        ≡ run (clear_registered_views_call ∷ (map register_view_call views ++ others)) p
  run-same views rest others p same =
      run-body views rest p
      ∙ then_call-same (clear_registered_views l p then_call register_views l (map arguments views))
          (run rest) (run others) same
      ∙ sym (run-body views others p)

  then_call-done :
      (called : Option ((Unit {0}) × Program)) → (called then_call λ p. some (tt, p)) ≡ called
  then_call-done none = refl
  then_call-done (some (u, p)) = refl

  -- A body of one statement.
  pub run-one : (body : ℕ) (p : Program) → run (statement body ∷ []) p ≡ execute body p
  unfolding run run_statement
  run-one body p = then_call-done (execute body p)

-- ===== src/Tests/GccVersion.antt =====
-- The gcc plugin in a compiler whose headers are of another patch.
use kokkos_kernel_forge.Base.{
  ℕ, zero, suc, ◌<◌, ◌≡◌, ◌↔◌, refl, true, false, [], ◌∷◌, ◌++◌, nat_eq, drop, arith,
}
use kokkos_kernel_forge.Base.Text.{text, starts_with}
use kokkos_kernel_forge.Base.Result.{ok}
use kokkos_kernel_forge.Plugins.GccVersion.{PluginGccVersion, plugin_init}
use kokkos_kernel_forge.Plugins.GccVersion.Find.{Lacks}
use kokkos_kernel_forge.Plugins.GccVersion.Accepts.{
  HasTarget, before_blank, at_end, plugin_init-accepts,
}

abbrev compiler : PluginGccVersion
compiler = record {
  basever = text "13.2.0";
  configuration_arguments = text "-v --target=x86_64-linux-gnu --disable-nls";
}

abbrev headers : PluginGccVersion
headers = record {
  basever = text "13.2.1";
  configuration_arguments = text "--target=x86_64-linux-gnu";
}

no_flag_before :
    (j : ℕ)
    → j < 3
    → starts_with
        (drop j (
          text "-v "
          ++ (text "--target=" ++ (text "x86_64-linux-gnu" ++ b' ' ∷ text "--disable-nls"))))
        (text "--target=")
      ≡ false
unfolding text starts_with
no_flag_before zero small = refl
no_flag_before (suc zero) small = refl
no_flag_before (suc (suc zero)) small = refl
no_flag_before (suc (suc (suc j))) small = let never : ⊥ = omega arith in elim never [ ]

target-Lacks : Lacks b' ' (text "x86_64-linux-gnu")
unfolding text
target-Lacks = (
  refl,
  (
    refl,
    (
      refl,
      (
        refl,
        (
          refl,
          (
            refl,
            (refl, (refl, (refl, (refl, (refl, (refl, (refl, (refl, (refl, (refl, tt)))))))))),
          ),
        ),
      ),
    ),
  ),
)

compiler_version : compiler.basever ≡ text "13.2" ++ b'.' ∷ text "0"
unfolding text
compiler_version = refl

headers_version : headers.basever ≡ text "13.2" ++ b'.' ∷ text "1"
unfolding text
headers_version = refl

no_dot_0 : Lacks b'.' (text "0")
unfolding text
no_dot_0 = (refl, tt)

no_dot_1 : Lacks b'.' (text "1")
unfolding text
no_dot_1 = (refl, tt)

compiler_target : HasTarget compiler.configuration_arguments (text "x86_64-linux-gnu")
unfolding text
compiler_target =
    before_blank (text "-v ") (text "x86_64-linux-gnu") (text "--disable-nls") no_flag_before
      target-Lacks (omega arith)

headers_target : HasTarget headers.configuration_arguments (text "x86_64-linux-gnu")
unfolding text
headers_target =
    at_end [] (text "x86_64-linux-gnu") (λ j small. let never : ⊥ = omega arith in elim never [ ])
      target-Lacks (omega arith)

plugin_init-accepts_example : (plugin_init 0 0 compiler headers ≡ ok (0, true)) ↔ (
    (◌≡◌ {A = ℕ} 0 0)
    × (◌≡◌ {A = ℕ} 0 0)
    × (text "13.2" ≡ text "13.2")
    × (text "x86_64-linux-gnu" ≡ text "x86_64-linux-gnu"))
plugin_init-accepts_example =
    plugin_init-accepts 0 0 compiler headers (text "13.2") (text "0") (text "13.2") (text "1")
      (text "x86_64-linux-gnu") (text "x86_64-linux-gnu") compiler_version no_dot_0 headers_version
      no_dot_1 compiler_target headers_target

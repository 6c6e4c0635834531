-- ===== src/Capture/Dump/Names.antt =====
-- The names of files and groups in src/krepe/capture/view_dump.cpp.
use mathlib.Core.List.{append_cancel_left, append_cancel_right}
use kokkos_kernel_forge.Base.{
  ℕ, zero, suc, ◌≤◌, ◌<◌, ◌≡◌, ◌≢◌, subst, ◌∙◌, refl, sym, ap, inl, inr, Bool, true, false, [], ◌∷◌,
  ◌++◌, ◌&&◌, ◌||◌, leb, ltb, ◌==◌, nat_eq, arith, if◌then◌else◌, length, take, length-take, All,
  is_empty, Bool-cases,
}
use kokkos_kernel_forge.Base.Text.{Text, text, is_digit}
use kokkos_kernel_forge.Capture.Numbers.{
  to_string, to_string-AllDigits, value_from-to_string, value_from, AllDigits,
}

-- `std::isalnum` in the "C" locale.
abbrev pub is_alnum : ℕ → Bool
is_alnum c = is_digit c || ((leb b'A' c && leb c b'Z') || (leb b'a' c && leb c b'z'))

unfoldable pub is_safe : ℕ → Bool
is_safe c = is_alnum c || (c == b'_' || (c == b'-' || c == b'.'))

unfoldable pub replace_unsafe : Text → Text
unfolding is_safe
replace_unsafe [] = []
replace_unsafe (c ∷ value) = (if is_safe c then c else b'_') ∷ replace_unsafe value

unfoldable pub shorten : Text → Text
shorten result =
    if is_empty result
    then text "unnamed"
    else if ltb 80 (length result)
    then take 80 result
    else result

unfoldable pub sanitize_name : Text → Text
unfolding replace_unsafe shorten
sanitize_name value = shorten (replace_unsafe value)

unfoldable pub dump_filename : Text → ℕ → Text
dump_filename label kernel_id =
    text "krepe_" ++ (sanitize_name label ++ (b'_' ∷ (to_string kernel_id ++ text ".h5")))

-- The name of the group of an allocation.
unfoldable pub group_name : ℕ → Text → Text
group_name index label = text "view_" ++ (to_string index ++ (b'_' ∷ sanitize_name label))

-- A name that is safe in a path: not empty, at most 80 bytes, letters, digits, `_`, `-` and `.` only.
pub record IsSafeName (s : Text) : Type 0 where
  pub not_empty : 0 < length s
  pub short : length s ≤ 80
  pub safe : All (λ c. is_safe c ≡ true) s

ltb_of_le : (a b : ℕ) → b ≤ a → ltb a b ≡ false
ltb_of_le a b h = ground arith

length-replace_unsafe : (s : Text) → length (replace_unsafe s) ≡ length s
unfolding replace_unsafe
length-replace_unsafe [] = refl
length-replace_unsafe (c ∷ s) = ap suc (length-replace_unsafe s)

replaced-safe : (c : ℕ) → is_safe (if is_safe c then c else b'_') ≡ true
replaced-safe c = elim (Bool-cases (is_safe c)) [
  | inl e ↦ rw e e
  | inr e ↦ rw e (unfold is_safe in refl)
]

replace_unsafe-safe : (s : Text) → All (λ c. is_safe c ≡ true) (replace_unsafe s)
unfolding replace_unsafe
replace_unsafe-safe [] = tt
replace_unsafe-safe (c ∷ s) = (replaced-safe c, replace_unsafe-safe s)

replace_safe : (s : Text) → All (λ c. is_safe c ≡ true) s → replace_unsafe s ≡ s
unfolding replace_unsafe
replace_safe [] h = refl
replace_safe (c ∷ s) h = rw (h.0, replace_safe s h.1)

take-safe :
    (n : ℕ) (s : Text) → All (λ c. is_safe c ≡ true) s → All (λ c. is_safe c ≡ true) (take n s)
take-safe zero s h = tt
take-safe (suc n) [] h = tt
take-safe (suc n) (c ∷ s) h = (h.0, take-safe n s h.1)

shorten-IsSafeName : (s : Text) → All (λ c. is_safe c ≡ true) s → IsSafeName (shorten s)
unfolding shorten text is_safe
shorten-IsSafeName [] h = record {
  not_empty = omega arith;
  short = omega arith;
  safe = (refl, (refl, (refl, (refl, (refl, (refl, (refl, tt)))))));
}
shorten-IsSafeName (c ∷ s) h = elim (Bool-cases (ltb 80 (length (c ∷ s)))) [
  | inl e ↦ rw e (record {
    not_empty = omega arith;
    short = omega (arith, length-take 80 (c ∷ s));
    safe = take-safe 80 (c ∷ s) h;
  })
  | inr e ↦ rw e (record { not_empty = omega arith; short = ground arith; safe = h })
]

-- Whatever the label, the name that `sanitize_name` makes of it is safe in a path: not empty, at most 80
-- bytes, letters, digits, `_`, `-` and `.` only.
pub sanitize_name-IsSafeName : (value : Text) → IsSafeName (sanitize_name value)
unfolding sanitize_name
sanitize_name-IsSafeName value =
    shorten-IsSafeName (replace_unsafe value) (replace_unsafe-safe value)

shorten-of_short : (s : Text) → 0 < length s → length s ≤ 80 → shorten s ≡ s
unfolding shorten
shorten-of_short [] h k = absurd (omega arith)
shorten-of_short (c ∷ s) h k = rw (ltb_of_le 80 (length (c ∷ s)) k)

-- A name that is safe already is kept as it is by `sanitize_name`.
pub sanitize_name-of_safe : (s : Text) → IsSafeName s → sanitize_name s ≡ s
unfolding sanitize_name
sanitize_name-of_safe s n =
    ap shorten (replace_safe s n.safe) ∙ shorten-of_short s n.not_empty n.short

abbrev LacksUnderscore : Text → Type 0
LacksUnderscore s = All (λ c. c ≢ b'_') s

has_underscore : (b e : Text) → ¬ LacksUnderscore (b ++ (b'_' ∷ e))
has_underscore [] e l = l.0 refl
has_underscore (y ∷ b) e l = has_underscore b e l.1

split_unique :
    (a b d e : Text)
    → LacksUnderscore d
    → LacksUnderscore e
    → a ++ (b'_' ∷ d) ≡ b ++ (b'_' ∷ e)
    → d ≡ e
split_unique [] [] d e ld le p = cc
split_unique [] (y ∷ b) d e ld le p =
    let q : d ≡ b ++ (b'_' ∷ e) = cc in absurd (has_underscore b e (subst LacksUnderscore q ld))
split_unique (x ∷ a) [] d e ld le p =
    let q : e ≡ a ++ (b'_' ∷ d) = cc in absurd (has_underscore a d (subst LacksUnderscore q le))
split_unique (x ∷ a) (y ∷ b) d e ld le p = split_unique a b d e ld le (cc)

digits-LacksUnderscore : (s : Text) → AllDigits s → LacksUnderscore (s ++ text ".h5")
unfolding text
digits-LacksUnderscore [] h = omega arith
digits-LacksUnderscore (c ∷ s) h = (ground (arith, h.0), digits-LacksUnderscore s h.1)

-- Kernels with different ids are dumped to different files, also when their labels are made the same
-- by the sanitising.
pub dump_filename-injective :
    (label other : Text) (i j : ℕ) → dump_filename label i ≡ dump_filename other j → i ≡ j
unfolding dump_filename
dump_filename-injective label other i j h =
    let tail =
      split_unique (sanitize_name label) (sanitize_name other) _ _
        (digits-LacksUnderscore (to_string i) (to_string-AllDigits i))
        (digits-LacksUnderscore (to_string j) (to_string-AllDigits j))
        (append_cancel_left (text "krepe_") _ _ h) in
    sym (value_from-to_string i)
    ∙ ap (value_from 0) (append_cancel_right (to_string i) (to_string j) (text ".h5") tail)
    ∙ value_from-to_string j

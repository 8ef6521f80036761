-- ===== src/Base/Strings.antt =====
-- Python's `str` as a list of code points, with what the program uses of it.
use Prim.Native.Nat.{ℕ, zero, suc, ◌+◌, ◌-◌, ◌/◌, ◌%◌}
use Prim.Native.Char.{code}
use Prim.Native.String.{String}
use mathlib.Core.Path.{◌≡◌, refl}
use mathlib.Core.Bool.{Bool, true, false, ◌&&◌, ◌||◌}
use mathlib.Core.List.{List, [], ◌∷◌, ◌++◌}
use native.Mathlib.Omega.{arith}
use mathlib.Core.Option.{Option, none, some}
use execution_auto.Base.Tests.{ltb, leb, ◌==◌, if◌then◌else◌}

abbrev pub Text : Type 0
Text = List ℕ

-- A text literal of the source.
unfoldable pub lit : String → Text
lit String.[] = []
lit (String.◌∷◌ c s) = code c ∷ lit s

unfoldable pub text_eq : Text → Text → Bool
text_eq [] [] = true
text_eq [] (d ∷ t) = false
text_eq (c ∷ s) [] = false
text_eq (c ∷ s) (d ∷ t) = c == d && text_eq s t

pub text_eq_sound : (s t : Text) → text_eq s t ≡ true → s ≡ t
unfolding text_eq
text_eq_sound [] [] h = refl
text_eq_sound [] (d ∷ t) h = cc
text_eq_sound (c ∷ s) [] h = cc
text_eq_sound (c ∷ s) (d ∷ t) h = ground (arith, text_eq_sound s t)

pub text_eq_refl : (s : Text) → text_eq s s ≡ true
unfolding text_eq
text_eq_refl [] = refl
text_eq_refl (c ∷ s) = ground (arith, text_eq_refl s)

pub text_eq_comm : (s t : Text) → text_eq s t ≡ text_eq t s
unfolding text_eq
text_eq_comm [] [] = refl
text_eq_comm [] (d ∷ t) = refl
text_eq_comm (c ∷ s) [] = refl
text_eq_comm (c ∷ s) (d ∷ t) = ground (arith, text_eq_comm s t)

-- `s in words`
unfoldable pub mem_text : Text → List Text → Bool
unfolding text_eq
mem_text s [] = false
mem_text s (t ∷ ts) = text_eq s t || mem_text s ts

-- `not s`
unfoldable pub is_empty : Text → Bool
is_empty [] = true
is_empty (c ∷ s) = false

-- `c.isspace()`: the whitespace characters that `str.strip` and `str.split` remove.
unfoldable pub is_space : ℕ → Bool
is_space c =
    (leb 9 c && leb c 13)
    || ((leb 28 c && leb c 32)
        || (c == 0x85
            || (c == 0xa0
                || (c == 0x1680
                    || ((leb 0x2000 c && leb c 0x200a)
                        || (c == 0x2028
                            || (c == 0x2029 || (c == 0x202f || (c == 0x205f || c == 0x3000)))))))))

-- `not s.strip()`
unfoldable pub is_blank : Text → Bool
unfolding is_space
is_blank [] = true
is_blank (c ∷ s) = is_space c && is_blank s

unfoldable pub lstrip : Text → Text
unfolding is_space
lstrip [] = []
lstrip (c ∷ s) = let rest = lstrip s in if is_space c then rest else c ∷ s

-- Drops the whitespace at the end.
unfoldable pub rstrip : Text → Text
unfolding is_space is_blank
rstrip [] = []
rstrip (c ∷ s) = let rest = rstrip s in if is_space c && is_blank s then [] else c ∷ rest

unfoldable pub strip : Text → Text
unfolding lstrip rstrip
strip s = rstrip (lstrip s)

-- `c.upper()` at an ASCII letter; every other character is itself.
unfoldable pub upper_ascii : ℕ → ℕ
upper_ascii c = if leb b'a' c && leb c b'z' then c - 32 else c

-- `str(n)`, the digits before the last by recursion on fuel; `n` digits are never more than `n + 1`.
digits_from : ℕ → ℕ → Text
digits_from zero n = []
digits_from (suc f) n =
    let rest = digits_from f (n / 10) ++ (n % 10 + 48) ∷ [] in
    if leb n 9 then (n + 48) ∷ [] else rest

unfoldable pub str_nat : ℕ → Text
unfolding digits_from
str_nat n = digits_from (suc n) n

-- `sep.join(parts)`
unfoldable pub join : Text → List Text → Text
join sep [] = []
join sep (t ∷ []) = t
join sep (t ∷ u ∷ ts) = t ++ (sep ++ join sep (u ∷ ts))

-- `s.split()`: the runs of characters that are no whitespace, `word` being the run read so far.
unfoldable pub fields_from : Text → Text → List Text
unfolding is_space
fields_from [] [] = []
fields_from (c ∷ word) [] = (c ∷ word) ∷ []
fields_from [] (d ∷ s) = fields_from (if is_space d then [] else d ∷ []) s
fields_from (c ∷ word) (d ∷ s) =
    let ended = (c ∷ word) ∷ fields_from [] s in
    let longer = fields_from ((c ∷ word) ++ d ∷ []) s in if is_space d then ended else longer

unfoldable pub fields : Text → List Text
unfolding fields_from
fields s = fields_from [] s

-- `s.startswith(p)`, and `p in s`
unfoldable pub has_prefix : Text → Text → Bool
has_prefix [] s = true
has_prefix (c ∷ p) [] = false
has_prefix (c ∷ p) (d ∷ s) = c == d && has_prefix p s

unfoldable pub has_substring : Text → Text → Bool
unfolding has_prefix
has_substring p [] = has_prefix p []
has_substring p (d ∷ s) = has_prefix p (d ∷ s) || has_substring p s

-- `s < t` by code points
unfoldable pub text_lt : Text → Text → Bool
text_lt s [] = false
text_lt [] (d ∷ t) = true
text_lt (c ∷ s) (d ∷ t) = ltb c d || (c == d && text_lt s t)

-- `d.get(key)` on a dictionary with text keys
unfoldable pub lookup_text {ℓ} : {V : Type ℓ} → Text → List (Text × V) → Option V
unfolding text_eq
lookup_text k [] = none
lookup_text k ((j, v) ∷ d) = if text_eq k j then some v else lookup_text k d

-- Into a sorted list without repetitions
unfoldable pub insert_text : Text → List Text → List Text
unfolding text_eq text_lt
insert_text t [] = t ∷ []
insert_text t (u ∷ us) =
    let rest = u ∷ insert_text t us in
    if text_eq t u then u ∷ us else if text_lt t u then t ∷ u ∷ us else rest

-- `sorted(set(texts))`
unfoldable pub sorted_set : List Text → List Text
unfolding insert_text
sorted_set [] = []
sorted_set (t ∷ ts) = insert_text t (sorted_set ts)

unfoldable pub put_text : Text → List Text → List Text
unfolding text_lt
put_text t [] = t ∷ []
put_text t (u ∷ us) = let rest = u ∷ put_text t us in if text_lt u t then rest else t ∷ u ∷ us

-- `sorted(texts)`
unfoldable pub sort_texts : List Text → List Text
unfolding put_text
sort_texts [] = []
sort_texts (t ∷ ts) = put_text t (sort_texts ts)

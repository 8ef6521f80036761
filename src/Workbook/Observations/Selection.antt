-- ===== src/Workbook/Observations/Selection.antt =====
-- workbook/observations.py `ObservationRules.select`: which rule is chosen.
use execution_auto.Base.{
  ℕ, ◌≡◌, ◌⊎◌, refl, ap, sym, subst, ◌∙◌, Bool, true, false, ◌&&◌, Option, none, some, List, [],
  ◌∷◌, arith, if◌then◌else◌, Text, text_eq_sound, text_eq_refl, ok, inl, inr, and_left, Bool-cases,
  Option-cases,
}
use mathlib.Core.Option.{some-injective}
use execution_auto.Models.{TestStatus, Platform}
use execution_auto.Workbook.Observations.{
  status_eq, platform_eq, code_eq, Rule, Key, key, key_eq, index_get, select, some_code, at_key,
  or_else, find_key, reject_duplicates_from, reject_duplicates,
}

-- The rule is in the list.
abbrev pub Listed : Rule → List Rule → Type 0
Listed r [] = ⊥
Listed r (q ∷ rs) = (r ≡ q) ⊎ Listed r rs

code_eq_refl : (a : Option Text) → code_eq a a ≡ true
unfolding code_eq
code_eq_refl none = refl
code_eq_refl (some t) = text_eq_refl t

code_eq_sound : (a b : Option Text) → code_eq a b ≡ true → a ≡ b
unfolding code_eq
code_eq_sound none none h = refl
code_eq_sound (some s) (some t) h = ap some (text_eq_sound s t h)
code_eq_sound none (some t) h = ground arith
code_eq_sound (some s) none h = ground arith

platform_eq_sound : (a b : Option Platform) → platform_eq a b ≡ true → a ≡ b
unfolding platform_eq
platform_eq_sound a b h = ground arith

status_eq_sound : (a b : TestStatus) → status_eq a b ≡ true → a ≡ b
unfolding status_eq
status_eq_sound a b h = ground arith

key_ext :
    (a b : Key)
    → a.status ≡ b.status
    → a.platform ≡ b.platform
    → a.error_code ≡ b.error_code
    → a ≡ b
key_ext a b s p c = λ i. record { status = s i; platform = p i; error_code = c i }

key_eq_refl : (a : Key) → key_eq a a ≡ true
unfolding key_eq status_eq platform_eq
key_eq_refl a = let c = code_eq_refl a.error_code in ground arith

key_eq_sound : (a b : Key) → key_eq a b ≡ true → a ≡ b
unfolding key_eq
key_eq_sound a b h =
    key_ext a b (status_eq_sound a.status b.status (ground arith))
      (platform_eq_sound a.platform b.platform (ground arith))
      (code_eq_sound a.error_code b.error_code (ground arith))

-- The index has a rule from behind, or the one at the front.
pick :
    (later : Option Rule) (here : Bool) (q r : Rule)
    → elim later [ some l ↦ some l | none ↦ if here then some q else none ] ≡ some r
    → (later ≡ some r) ⊎ ((here ≡ true) × (r ≡ q))
pick (some l) here q r e = inl e
pick none true q r e = inr (refl, sym (some-injective _ _ e))
pick none false q r e = ground arith

-- What the index holds under a key is an enabled rule of the list, and of that key.
index_get_sound :
    (k : Key) (rs : List Rule) (r : Rule)
    → index_get k rs ≡ some r
    → Listed r rs × (r.enabled ≡ true) × (key r ≡ k)
unfolding index_get
index_get_sound k [] r e = ground arith
index_get_sound k (q ∷ rs) r e =
    elim (pick (index_get k rs) (q.enabled && key_eq (key q) k) q r e) [
      | inl found ↦
          let (listed, on, key_is) = index_get_sound k rs r found in (inr listed, on, key_is)
      | inr (matches, same) ↦ (
        inl same,
        subst (λ t. t.enabled ≡ true) (sym same) (and_left q.enabled (key_eq (key q) k) matches),
        subst (λ t. key t ≡ k) (sym same) (key_eq_sound (key q) k (ground arith)),
      )
    ]

head_fresh :
    (seen : List (Key × ℕ)) (q : Rule) (rs : List Rule)
    → reject_duplicates_from seen (q ∷ rs) ≡ ok tt
    → q.enabled ≡ true
    → (find_key (key q) seen ≡ none)
      × (reject_duplicates_from ((key q, q.row_number) ∷ seen) rs ≡ ok tt)
unfolding reject_duplicates_from
head_fresh seen q rs h on = elim (Option-cases (find_key (key q) seen)) [
  | inl unseen ↦ (unseen, ground arith)
  | inr (row, found) ↦ ground arith
]

tail_accepted :
    (seen : List (Key × ℕ)) (q : Rule) (rs : List Rule)
    → reject_duplicates_from seen (q ∷ rs) ≡ ok tt
    → q.enabled ≡ false
    → reject_duplicates_from seen rs ≡ ok tt
unfolding reject_duplicates_from
tail_accepted seen q rs h off = ground arith

-- No enabled rule has a key that was seen before.
fresh :
    (seen : List (Key × ℕ)) (rs : List Rule)
    → reject_duplicates_from seen rs ≡ ok tt
    → (r : Rule) → Listed r rs
    → r.enabled ≡ true
    → find_key (key r) seen ≡ none
unfolding find_key
fresh seen [] h r listed on = elim listed [ ]
fresh seen (q ∷ rs) h r (inl same) on =
    subst (λ t. find_key (key t) seen ≡ none) (sym same)
      (head_fresh seen q rs h (subst (λ t. t.enabled ≡ true) same on)).0
fresh seen (q ∷ rs) h r (inr later) on = elim (Bool-cases q.enabled) [
  | inr off ↦ fresh seen rs (tail_accepted seen q rs h off) r later on
  | inl enabled ↦
      let rest =
        fresh ((key q, q.row_number) ∷ seen) rs (head_fresh seen q rs h enabled).1 r later on in
      ground arith
]

unique :
    (k : Key) (seen : List (Key × ℕ)) (rs : List Rule)
    → reject_duplicates_from seen rs ≡ ok tt
    → (r : Rule) → Listed r rs
    → r.enabled ≡ true
    → key r ≡ k
    → index_get k rs ≡ some r
unfolding index_get find_key
unique k seen [] h r listed on e = elim listed [ ]
unique k seen (q ∷ rs) h r (inl same) on e =
    let on' = subst (λ t. t.enabled ≡ true) same on in
    let e' = subst (λ t. key t ≡ k) same e in
    let matches = subst (λ j. key_eq j k ≡ true) (sym e') (key_eq_refl k) in
    elim (Option-cases (index_get k rs)) [
      | inl last ↦ ground arith
      | inr (r', found) ↦
          let (listed, enabled, same') = index_get_sound k rs r' found in
          let unseen =
            fresh ((key q, q.row_number) ∷ seen) rs (head_fresh seen q rs h on').1 r' listed
              enabled in
          let clash = subst (λ j. key_eq (key q) j ≡ true) (e' ∙ sym same') (key_eq_refl (key q)) in
          ground arith
    ]
unique k seen (q ∷ rs) h r (inr later) on e = elim (Bool-cases q.enabled) [
  | inr off ↦
      let rest = unique k seen rs (tail_accepted seen q rs h off) r later on e in ground arith
  | inl enabled ↦
      let rest =
        unique k ((key q, q.row_number) ∷ seen) rs (head_fresh seen q rs h enabled).1 r later on
          e in
      ground arith
]

-- When no two enabled rules share a key, an enabled rule of exactly the outcome's status, platform
-- and code words the outcome, wherever it stands in the sheet and whatever more general rules
-- there are.
pub select-exact :
    (rules : List Rule) (s : TestStatus) (p : Platform) (c : Text) (r : Rule)
    → reject_duplicates rules ≡ ok tt
    → Listed r rules
    → r.enabled ≡ true
    → key r ≡ at_key s (some p) (some_code c)
    → select rules s p c ≡ some r
unfolding select reject_duplicates or_else
select-exact rules s p c r h listed on e =
    let found = unique (at_key s (some p) (some_code c)) [] rules h r listed on e in ground arith

-- The rule covers outcomes of the status, platform and code: a field that it leaves at ANY covers all.
abbrev pub IsCovering : TestStatus → Platform → Text → Rule → Type 0
IsCovering s p c r =
    (r.status ≡ s)
    × ((r.platform ≡ none) ⊎ (r.platform ≡ some p))
    × ((r.error_code ≡ none) ⊎ (r.error_code ≡ some_code c))

covered :
    (s : TestStatus) (p : Platform) (c : Text) (f : Option Platform) (g : Option Text)
    (rs : List Rule) (r : Rule)
    → ((f ≡ none) ⊎ (f ≡ some p)) × ((g ≡ none) ⊎ (g ≡ some_code c))
    → index_get (at_key s f g) rs ≡ some r
    → Listed r rs × (r.enabled ≡ true) × IsCovering s p c r
covered s p c f g rs r fits e =
    let (listed, on, same) = index_get_sound (at_key s f g) rs r e in
    (
      listed,
      on,
      subst
          (λ k.
            (k.status ≡ s)
            × ((k.platform ≡ none) ⊎ (k.platform ≡ some p))
            × ((k.error_code ≡ none) ⊎ (k.error_code ≡ some_code c)))
          (sym same) (refl, fits.0, fits.1),
    )

or_else-cases :
    {A : Type 0} (a b : Option A) (x : A) → or_else a b ≡ some x → (a ≡ some x) ⊎ (b ≡ some x)
unfolding or_else
or_else-cases (some a) b x e = inl e
or_else-cases none b x e = inr e

-- A rule that is selected stands in the sheet, is enabled, and covers the outcome's status, platform
-- and code.
pub select_sound :
    (rules : List Rule) (s : TestStatus) (p : Platform) (c : Text) (r : Rule)
    → select rules s p c ≡ some r
    → Listed r rules × (r.enabled ≡ true) × IsCovering s p c r
unfolding select
select_sound rules s p c r e = elim (or_else-cases _ _ r e) [
  | inl found ↦ covered s p c (some p) (some_code c) rules r (inr refl, inr refl) found
  | inr e ↦ elim (or_else-cases _ _ r e) [
    | inl found ↦ covered s p c (some p) none rules r (inr refl, inl refl) found
    | inr e ↦ elim (or_else-cases _ _ r e) [
      | inl found ↦ covered s p c none (some_code c) rules r (inl refl, inr refl) found
      | inr found ↦ covered s p c none none rules r (inl refl, inl refl) found
    ]
  ]
]

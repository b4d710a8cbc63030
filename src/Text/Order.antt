-- ===== src/Text/Order.antt =====
-- `sort.Strings`: Go compares strings by their bytes, which for valid UTF-8 is by their characters.
use Prim.Native.Char.{Char, code}
use mathlib.Core.List.{Perm, foldr}
use mathlib.Core.List.Perm
use text.Mathlib.TextEquality.{Char-path, IsScalar-prop}
use v2sudoku.Prelude.{
  ◌≡◌, refl, sym, ap, subst, ◌∙◌, ◌⊎◌, inl, inr, All, Any, ◌<◌, Bool, true, false, String, List, [],
  ◌∷◌, ltb, if◌then◌else◌, Bool-cases, arith,
}

unfoldable pub leb_string : String → String → Bool
leb_string String.[] t = true
leb_string (String.◌∷◌ c s) String.[] = false
leb_string (String.◌∷◌ c s) (String.◌∷◌ d t) =
    let rest = leb_string s t in
    if ltb (code c) (code d) then true else if ltb (code d) (code c) then false else rest

unfoldable pub insert_string : String → List String → List String
unfolding leb_string
insert_string a [] = a ∷ []
insert_string a (b ∷ bs) =
    let rest = insert_string a bs in if leb_string a b then a ∷ b ∷ bs else b ∷ rest

unfoldable pub sort_strings : List String → List String
unfolding insert_string
sort_strings [] = []
sort_strings (a ∷ bs) = insert_string a (sort_strings bs)

sort_test : sort_strings ("b" ∷ "ab" ∷ "a" ∷ "é" ∷ []) ≡ "a" ∷ "ab" ∷ "b" ∷ "é" ∷ []
unfolding sort_strings
sort_test = refl

-- A string is at most another one if its first character is smaller, or if that is the same and the rest
-- is at most the other rest.
abbrev IsBefore : Char → String → Char → String → Type 0
IsBefore c s d t = (code c < code d) ⊎ ((c ≡ d) × (leb_string s t ≡ true))

before :
    (c d : Char) (s t : String)
    → leb_string (String.◌∷◌ c s) (String.◌∷◌ d t) ≡ true
    → IsBefore c s d t
unfolding leb_string
before c d s t h = elim (Bool-cases (ltb (code c) (code d))) [
  | inl less ↦ inl (ground arith)
  | inr not_less ↦ elim (Bool-cases (ltb (code d) (code c))) [
    | inl more ↦ absurd (cc (simp (not_less, more) at h))
    | inr not_more ↦ inr (Char-path c d (ground arith), simp (not_less, not_more) at h)
  ]
]

leads :
    (c d : Char) (s t : String)
    → code c < code d
    → leb_string (String.◌∷◌ c s) (String.◌∷◌ d t) ≡ true
unfolding leb_string
leads c d s t h = let less : ltb (code c) (code d) ≡ true = ground arith in simp less refl

follows :
    (c : Char) (s t : String)
    → leb_string s t ≡ true
    → leb_string (String.◌∷◌ c s) (String.◌∷◌ c t) ≡ true
unfolding leb_string
follows c s t h = let same : ltb (code c) (code c) ≡ false = ground arith in simp same h

leb_string_antisym : (s t : String) → leb_string s t ≡ true → leb_string t s ≡ true → s ≡ t
unfolding leb_string
leb_string_antisym String.[] String.[] h k = refl
leb_string_antisym String.[] (String.◌∷◌ d t) h k = absurd (cc k)
leb_string_antisym (String.◌∷◌ c s) String.[] h k = absurd (cc h)
leb_string_antisym (String.◌∷◌ c s) (String.◌∷◌ d t) h k = elim (before c d s t h) [
  | inl less ↦ elim (before d c t s k) [
    | inl more ↦ absurd (omega (arith, less, more))
    | inr (same, rest) ↦ absurd (omega (arith, less, ap code same))
  ]
  | inr (same, rest) ↦ elim (before d c t s k) [
    | inl more ↦ absurd (omega (arith, more, ap code same))
    | inr (same_too, rest_too) ↦ cc (same, leb_string_antisym s t rest rest_too)
  ]
]

leb_string_total : (s t : String) → leb_string s t ≡ false → leb_string t s ≡ true
unfolding leb_string
leb_string_total String.[] t h = absurd (cc h)
leb_string_total (String.◌∷◌ c s) String.[] h = refl
leb_string_total (String.◌∷◌ c s) (String.◌∷◌ d t) h = elim (Bool-cases (ltb (code c) (code d))) [
  | inl less ↦ absurd (cc (simp less at h))
  | inr not_less ↦ elim (Bool-cases (ltb (code d) (code c))) [
    | inl more ↦ simp more refl
    | inr not_more ↦
        simp (not_less, not_more) (leb_string_total s t (simp (not_less, not_more) at h))
  ]
]

leb_string_trans :
    (s t u : String) → leb_string s t ≡ true → leb_string t u ≡ true → leb_string s u ≡ true
unfolding leb_string
leb_string_trans String.[] t u h k = refl
leb_string_trans (String.◌∷◌ c s) String.[] u h k = absurd (cc h)
leb_string_trans (String.◌∷◌ c s) (String.◌∷◌ d t) String.[] h k = absurd (cc k)
leb_string_trans (String.◌∷◌ c s) (String.◌∷◌ d t) (String.◌∷◌ e u) h k = elim (before c d s t h) [
  | inl less ↦ elim (before d e t u k) [
    | inl less_too ↦ leads c e s u (omega (arith, less, less_too))
    | inr (same_too, rest_too) ↦ leads c e s u (omega (arith, less, ap code same_too))
  ]
  | inr (same, rest) ↦ elim (before d e t u k) [
    | inl less_too ↦ leads c e s u (omega (arith, less_too, ap code same))
    | inr (same_too, rest_too) ↦
        subst (λ x. leb_string (String.◌∷◌ c s) (String.◌∷◌ x u) ≡ true) (same ∙ same_too)
          (follows c s u (leb_string_trans s t u rest rest_too))
  ]
]

insert_string_comm_less :
    (a b : String) (cs : List String)
    → leb_string a b ≡ true
    → leb_string b a ≡ false
    → insert_string a (insert_string b cs) ≡ insert_string b (insert_string a cs)
unfolding insert_string
insert_string_comm_less a b [] h k = simp (h, k) refl
insert_string_comm_less a b (c ∷ cs) h k = elim (Bool-cases (leb_string b c)) [
  | inl b_here ↦ let a_here = leb_string_trans a b c h b_here in simp (b_here, a_here, h, k) refl
  | inr b_past ↦ elim (Bool-cases (leb_string a c)) [
    | inl a_here ↦ simp (b_past, a_here, k) refl
    | inr a_past ↦ simp (b_past, a_past) (ap (λ r. c ∷ r) (insert_string_comm_less a b cs h k))
  ]
]

insert_string_comm :
    (a b : String) (cs : List String)
    → insert_string a (insert_string b cs) ≡ insert_string b (insert_string a cs)
insert_string_comm a b cs = elim (Bool-cases (leb_string a b)) [
  | inl h ↦ elim (Bool-cases (leb_string b a)) [
    | inl k ↦
        subst (λ x. insert_string a (insert_string x cs) ≡ insert_string x (insert_string a cs))
          (leb_string_antisym a b h k) refl
    | inr k ↦ insert_string_comm_less a b cs h k
  ]
  | inr k ↦ sym (insert_string_comm_less b a cs (leb_string_total a b k) k)
]

sort_strings-foldr : (xs : List String) → sort_strings xs ≡ foldr insert_string [] xs
unfolding sort_strings
sort_strings-foldr [] = refl
sort_strings-foldr (a ∷ bs) = ap (insert_string a) (sort_strings-foldr bs)

-- Sorting forgets the order in which the strings were given.
pub sort_strings-Perm : (xs ys : List String) → Perm xs ys → sort_strings xs ≡ sort_strings ys
sort_strings-Perm xs ys p =
    sort_strings-foldr xs
    ∙ Perm.foldr-eq (hlevel IsScalar-prop) insert_string insert_string_comm p []
    ∙ sym (sort_strings-foldr ys)

module _ (P : String → Type 0) where
  insert_string-All : (a : String) (bs : List String) → P a → All P bs → All P (insert_string a bs)
  unfolding insert_string
  insert_string-All a [] h k = (h, tt)
  insert_string-All a (b ∷ bs) h k = elim (Bool-cases (leb_string a b)) [
    | inl here ↦ rw here (h, k)
    | inr past ↦ rw past (k.0, insert_string-All a bs h k.1)
  ]

  pub sort_strings-All : (xs : List String) → All P xs → All P (sort_strings xs)
  unfolding sort_strings
  sort_strings-All [] h = tt
  sort_strings-All (x ∷ xs) h = insert_string-All x (sort_strings xs) h.0 (sort_strings-All xs h.1)

  insert_string-here : (a : String) (bs : List String) → P a → Any P (insert_string a bs)
  unfolding insert_string
  insert_string-here a [] h = inl h
  insert_string-here a (b ∷ bs) h = elim (Bool-cases (leb_string a b)) [
    | inl here ↦ rw here (inl h)
    | inr past ↦ rw past (inr (insert_string-here a bs h))
  ]

  insert_string-there : (a : String) (bs : List String) → Any P bs → Any P (insert_string a bs)
  unfolding insert_string
  insert_string-there a [] h = absurd h
  insert_string-there a (b ∷ bs) h = elim (Bool-cases (leb_string a b)) [
    | inl here ↦ rw here (inr h)
    | inr past ↦
        rw past (elim h [ inl own ↦ inl own | inr more ↦ inr (insert_string-there a bs more) ])
  ]

  pub sort_strings-Any : (xs : List String) → Any P xs → Any P (sort_strings xs)
  unfolding sort_strings
  sort_strings-Any [] h = absurd h
  sort_strings-Any (x ∷ xs) (inl own) = insert_string-here x (sort_strings xs) own
  sort_strings-Any (x ∷ xs) (inr more) =
      insert_string-there x (sort_strings xs) (sort_strings-Any xs more)

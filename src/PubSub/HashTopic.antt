-- ===== src/PubSub/HashTopic.antt =====
-- The matcher of the tests of src/loopyPubSub.c: it takes no pattern but "#", which every topic
-- matches.
use Prim.Native.String.{String}
use text.Mathlib.Text.{◌==◌ as str_eq}
use text.Mathlib.TextEquality.{eq_iff}
use mathlib.Core.Bool.{true≢false}
use loopy.Prelude.{
  ℕ, ◌≡◌, ◌≢◌, refl, sym, ◌∙◌, Bool, true, false, Option, none, some, List, [], ◌∷◌, ◌++◌, arith,
  if◌then◌else◌, if_cases, Bool-cases, inl, inr,
}
use loopy.PubSub.RaxTopic.{RaxTopic, All}

unfoldable pub get_hash : Option ℕ → String → Option ℕ
get_hash t k = if str_eq k "#" then t else none

pub bind_hash : Option ℕ → String → ℕ → Option (Option ℕ)
bind_hash t k u = if str_eq k "#" then some (some u) else none

pub unbind_hash : Option ℕ → String → Option ℕ
unbind_hash t k = if str_eq k "#" then none else t

abbrev pub hash_entries : Option ℕ → List (String × ℕ)
hash_entries none = []
hash_entries (some u) = ("#", u) ∷ []

pub hash_bound : (t : Option ℕ) → All (λ k u. get_hash t k ≡ some u) (hash_entries t)
unfolding get_hash
hash_bound none = tt
hash_bound (some u) = (refl, tt)

-- What is found is found under "#".
pub found_hash :
    (t : Option ℕ) (k : String) (u : ℕ) → get_hash t k ≡ some u → (k ≡ "#") × (t ≡ some u)
unfolding get_hash
found_hash t k u e = elim (Bool-cases (str_eq k "#")) [
  | inl hit ↦ ((eq_iff k "#").0 hit, rw hit at e)
  | inr miss ↦ absurd (let no : none ≡ some u = rw miss at e in cc)
]

made_hash :
    (t t' : Option ℕ) (k : String) (u : ℕ) → bind_hash t k u ≡ some t' → (k ≡ "#") × (t' ≡ some u)
unfolding bind_hash
made_hash t t' k u e = elim (Bool-cases (str_eq k "#")) [
  | inl hit ↦ let inner : some (some u) ≡ some t' = rw hit at e in ((eq_iff k "#").0 hit, cc)
  | inr miss ↦ absurd (let no : none ≡ some t' = rw miss at e in cc)
]

other_hash : (t : Option ℕ) (k : String) → k ≢ "#" → get_hash t k ≡ none
unfolding get_hash
other_hash t k ne = elim (Bool-cases (str_eq k "#")) [
  | inl hit ↦ absurd (ne ((eq_iff k "#").0 hit))
  | inr miss ↦ rw miss refl
]

pub get-empty_hash : (k : String) → get_hash none k ≡ none
unfolding get_hash
get-empty_hash k = if_cases (λ x. x ≡ none) (str_eq k "#") (λ e. refl) (λ e. refl)

pub get-unbind_hash : (t : Option ℕ) (k : String) → get_hash (unbind_hash t k) k ≡ none
unfolding unbind_hash
get-unbind_hash t k = elim (Bool-cases (str_eq k "#")) [
  | inl hit ↦ rw hit (get-empty_hash k)
  | inr miss ↦ rw miss (other_hash t k (λ same. true≢false (sym ((eq_iff k "#").1 same) ∙ miss)))
]

pub get_other-unbind_hash :
    (t : Option ℕ) (k j : String) → j ≢ k → get_hash (unbind_hash t k) j ≡ get_hash t j
unfolding unbind_hash
get_other-unbind_hash t k j ne = elim (Bool-cases (str_eq k "#")) [
  | inl hit ↦
      let other : j ≢ "#" = λ same. ne (same ∙ sym ((eq_iff k "#").0 hit)) in
      other_hash _ j other ∙ sym (other_hash t j other)
  | inr miss ↦ rw miss refl
]

pub bind_hash_entry :
    (t t' : Option ℕ) (k : String) (u : ℕ)
    → get_hash t k ≡ none
    → bind_hash t k u ≡ some t'
    → (xs : List (String × ℕ)) × (ys : List (String × ℕ)) × (hash_entries t ≡ xs ++ ys)
      × (hash_entries t' ≡ xs ++ ((k, u) ∷ ys))
unfolding get_hash
bind_hash_entry none t' k u unbound e =
    let (same, made) = made_hash none t' k u e in ([], [], refl, rw (same, made) refl)
bind_hash_entry (some v) t' k u unbound e =
    let (same, made) = made_hash (some v) t' k u e in
    absurd (let no : some v ≡ none = rw same at unbound in cc)

pub unbind_hash_entry :
    (t : Option ℕ) (k : String) (u : ℕ)
    → get_hash t k ≡ some u
    → (xs : List (String × ℕ)) × (ys : List (String × ℕ)) × (hash_entries t ≡ xs ++ ((k, u) ∷ ys))
      × (hash_entries (unbind_hash t k) ≡ xs ++ ys)
unfolding unbind_hash
unbind_hash_entry t k u e =
    let (same, made) = found_hash t k u e in ([], [], rw (same, made) refl, rw same refl)

pub exists_hash : Option ℕ → String → Bool
exists_hash t k = elim (get_hash t k) [ none ↦ false | some u ↦ true ]

pub exists_hash_lem :
    (t : Option ℕ) (k : String)
    → exists_hash t k ≡ elim (get_hash t k) [ none ↦ false | some u ↦ true ]
unfolding exists_hash
exists_hash_lem t k = refl

pub get-bind_hash :
    (t t' : Option ℕ) (k : String) (u : ℕ) → bind_hash t k u ≡ some t' → get_hash t' k ≡ some u
unfolding get_hash
get-bind_hash t t' k u e = let (same, made) = made_hash t t' k u e in rw (same, made) refl

pub get_other-bind_hash :
    (t t' : Option ℕ) (k j : String) (u : ℕ)
    → bind_hash t k u ≡ some t'
    → j ≢ k
    → get_hash t' j ≡ get_hash t j
get_other-bind_hash t t' k j u e ne =
    let other : j ≢ "#" = λ same. ne (same ∙ sym (made_hash t t' k u e).0) in
    other_hash t' j other ∙ sym (other_hash t j other)

pub get_hash_entry :
    (t : Option ℕ) (k : String) (u : ℕ)
    → get_hash t k ≡ some u
    → (xs : List (String × ℕ)) × (ys : List (String × ℕ)) × (hash_entries t ≡ xs ++ ((k, u) ∷ ys))
get_hash_entry t k u e = let (same, made) = found_hash t k u e in ([], [], rw (same, made) refl)

-- The matcher.
abbrev pub hash_topic : RaxTopic
hash_topic = record {
  Tree = Option ℕ;
  new = none;
  get = get_hash;
  bind = bind_hash;
  unbind = unbind_hash;
  exists = exists_hash;
  matches = λ t topic. hash_entries t;
  entries = hash_entries;
  get-new = get-empty_hash;
  entries-new = refl;
  exists_lem = exists_hash_lem;
  matches_bound = λ t topic. hash_bound t;
  entries_bound = hash_bound;
  matches_within = λ t topic f. omega arith;
  get_entry = get_hash_entry;
  bind_entry = bind_hash_entry;
  get-bind = get-bind_hash;
  get_other-bind = get_other-bind_hash;
  unbind_entry = unbind_hash_entry;
  get-unbind = get-unbind_hash;
  get_other-unbind = get_other-unbind_hash;
}

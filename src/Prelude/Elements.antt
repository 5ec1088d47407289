-- ===== src/Prelude/Elements.antt =====
-- A predicate that holds of some element of a list.
use mathlib.Core.Path.{◌≡◌, refl}
use mathlib.Core.Logic.{◌⊎◌, inl, inr}
use mathlib.Core.List.{List, [], ◌∷◌, ◌++◌}
use osdev_hikalium.Prelude.Lists.{All}

module _ {ℓ} {A : Type ℓ} (P : A → Type 0) where
  abbrev pub Any : List A → Type 0
  Any [] = ⊥
  Any (x ∷ xs) = P x ⊎ Any xs

-- Where the element stands.
pub record Found {ℓ} {A : Type ℓ} (P : A → Type 0) (xs : List A) : Type ℓ where
  pub before : List A
  pub item : A
  pub after : List A
  pub stands : xs ≡ before ++ item ∷ after
  pub has : P item

module _ {ℓ} {A : Type ℓ} (P : A → Type 0) where
  pub Any-append_left : (xs ys : List A) → Any P xs → Any P (xs ++ ys)
  Any-append_left [] ys h = elim h [ ]
  Any-append_left (x ∷ xs) ys (inl h) = inl h
  Any-append_left (x ∷ xs) ys (inr h) = inr (Any-append_left xs ys h)

  pub Any-append_right : (xs ys : List A) → Any P ys → Any P (xs ++ ys)
  Any-append_right [] ys h = h
  Any-append_right (x ∷ xs) ys h = inr (Any-append_right xs ys h)

  pub Any-append-cases : (xs ys : List A) → Any P (xs ++ ys) → Any P xs ⊎ Any P ys
  Any-append-cases [] ys h = inr h
  Any-append-cases (x ∷ xs) ys (inl h) = inl (inl h)
  Any-append-cases (x ∷ xs) ys (inr h) = elim (Any-append-cases xs ys h) [
    | inl l ↦ inl (inr l)
    | inr r ↦ inr r
  ]

  pub Any-Found : (xs : List A) → Any P xs → Found P xs
  Any-Found [] h = elim h [ ]
  Any-Found (x ∷ xs) (inl h) = record { before = []; item = x; after = xs; stands = refl; has = h }
  Any-Found (x ∷ xs) (inr h) =
      let rest = Any-Found xs h in
      record {
        before = x ∷ rest.before;
        item = rest.item;
        after = rest.after;
        stands = rw rest.stands;
        has = rest.has;
      }

module _ {ℓ} {A : Type ℓ} {P Q : A → Type 0} where
  pub Any-imp : (xs : List A) → ((x : A) → P x → Q x) → Any P xs → Any Q xs
  Any-imp [] f h = elim h [ ]
  Any-imp (x ∷ xs) f (inl h) = inl (f x h)
  Any-imp (x ∷ xs) f (inr h) = inr (Any-imp xs f h)

  -- What holds of all elements holds of the one that is found.
  pub Any-All {ν} : {R : Type ν} (xs : List A) → ((x : A) → P x → Q x → R) → All P xs → Any Q xs → R
  Any-All [] f a h = elim h [ ]
  Any-All (x ∷ xs) f a (inl h) = f x a.0 h
  Any-All (x ∷ xs) f a (inr h) = Any-All xs f a.1 h

-- ===== src/Queue/Ring.antt =====
-- boost::circular_buffer as an interface with its documented behaviour, and a value of it.
use bigpipe_cpp.Base.{
  ℕ, ◌≡◌, refl, Bool, true, false, ◌==◌, List, [], ◌∷◌, ◌++◌, Option, none, some, length,
}

pub record CircularBuffer (A B : Type 0) : Type 0 where
  pub make : ℕ → B
  pub push_back : A → B → B
  pub pop_front : B → B
  pub front : B → Option A  -- `none` where the buffer is empty: not to be called there
  pub full : B → Bool
  pub empty : B → Bool
  pub size : B → ℕ
  pub capacity : B → ℕ

-- The elements, oldest first. A push into a full buffer overwrites the oldest element.
pub record CircularBufferLaws {A B : Type 0} (r : CircularBuffer A B) : Type 0 where
  pub contents : B → List A
  pub make-contents : (n : ℕ) → contents (r.make n) ≡ []
  pub make-capacity : (n : ℕ) → r.capacity (r.make n) ≡ n
  pub size_lem : (b : B) → r.size b ≡ length (contents b)
  pub full_lem : (b : B) → r.full b ≡ (length (contents b) == r.capacity b)
  pub empty_lem : (b : B) → r.empty b ≡ (length (contents b) == 0)
  pub push_back-contents :
      (x : A) (b : B) → r.full b ≡ false → contents (r.push_back x b) ≡ contents b ++ x ∷ []
  pub push_back-overwrites :
      (x y : A) (ys : List A) (b : B)
      → r.full b ≡ true
      → contents b ≡ y ∷ ys
      → contents (r.push_back x b) ≡ ys ++ x ∷ []
  pub push_back-capacity : (x : A) (b : B) → r.capacity (r.push_back x b) ≡ r.capacity b
  pub front_lem : (x : A) (xs : List A) (b : B) → contents b ≡ x ∷ xs → r.front b ≡ some x
  pub pop_front-contents :
      (x : A) (xs : List A) (b : B) → contents b ≡ x ∷ xs → contents (r.pop_front b) ≡ xs
  pub pop_front-capacity : (b : B) → r.capacity (r.pop_front b) ≡ r.capacity b

pub record ListRing (A : Type 0) : Type 0 where
  pub items : List A
  pub room : ℕ

module _ {A : Type 0} where
  abbrev pub push_items : A → List A → Bool → List A
  push_items x xs false = xs ++ x ∷ []
  push_items x [] true = []
  push_items x (y ∷ ys) true = ys ++ x ∷ []

  abbrev rest : List A → List A
  rest [] = []
  rest (x ∷ xs) = xs

  abbrev first : List A → Option A
  first [] = none
  first (x ∷ xs) = some x

  abbrev pub list_ring : CircularBuffer A (ListRing A)
  list_ring = record {
    make = λ n. record { items = []; room = n };
    push_back = λ x b. record b { items = push_items x b.items (length b.items == b.room) };
    pop_front = λ b. record b { items = rest b.items };
    front = λ b. first b.items;
    full = λ b. length b.items == b.room;
    empty = λ b. length b.items == 0;
    size = λ b. length b.items;
    capacity = λ b. b.room;
  }

module _ {A : Type 0} where
  pub push_items_full :
      (x y : A) (ys xs : List A) (is_full : Bool)
      → is_full ≡ true
      → xs ≡ y ∷ ys
      → push_items x xs is_full ≡ ys ++ x ∷ []
  push_items_full x y ys xs is_full h e = rw (h, e)

  abbrev pub list_ring-laws : CircularBufferLaws (list_ring {A = A})
  list_ring-laws = record {
    contents = λ b. b.items;
    make-contents = λ n. refl;
    make-capacity = λ n. refl;
    size_lem = λ b. refl;
    full_lem = λ b. refl;
    empty_lem = λ b. refl;
    push_back-contents = λ x b h. rw h;
    push_back-overwrites =
        λ x y ys b h e. push_items_full x y ys b.items (length b.items == b.room) h e;
    push_back-capacity = λ x b. refl;
    front_lem = λ x xs b e. rw (e, first);
    pop_front-contents = λ x xs b e. rw (e, rest);
    pop_front-capacity = λ b. refl;
  }

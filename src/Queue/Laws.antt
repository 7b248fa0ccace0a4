-- ===== src/Queue/Laws.antt =====
-- The critical sections seen as operations of a bounded queue.
use bigpipe_cpp.Base.{
  ◌≡◌, refl, sym, ap, ◌∙◌, ◌≢◌, ◌⊎◌, inl, inr, Bool, Bool-cases, ◌==◌, List, [], ◌∷◌, ◌++◌, arith,
  length, length-append,
}
use bigpipe_cpp.Queue.Ring.{CircularBuffer, CircularBufferLaws}
use bigpipe_cpp.Queue.{waits, leaves, put_section, take_section}

module _ {A B : Type 0} {r : CircularBuffer A B} (laws : CircularBufferLaws r) where
  open laws use {
    contents, size_lem, full_lem, empty_lem, push_back-contents, push_back-capacity, front_lem,
    pop_front-contents, pop_front-capacity,
  }

  -- put waits exactly when the buffer is full. Otherwise it appends, overwrites nothing, and
  -- notifies exactly when the buffer was empty.
  pub put_section_lem :
      (x : A) (ring : B)
      → ((put_section r x ring ≡ waits) × (length (contents ring) ≡ r.capacity ring))
        ⊎ ((ring' : B) × (notify : Bool) × (put_section r x ring ≡ leaves (ring', notify))
            × (length (contents ring) ≢ r.capacity ring)
            × (contents ring' ≡ contents ring ++ x ∷ [])
            × (r.capacity ring' ≡ r.capacity ring)
            × (notify ≡ (length (contents ring) == 0)))
  unfolding put_section
  put_section_lem x ring = elim (Bool-cases (r.full ring)) [
    | inl full ↦ inl (rw full, ground (arith, full_lem ring))
    | inr room ↦ inr (
      r.push_back x ring,
      (r.size (r.push_back x ring) == 1),
      rw room,
      ground (arith, full_lem ring),
      push_back-contents x ring room,
      push_back-capacity x ring,
      rw (size_lem (r.push_back x ring), push_back-contents x ring room, length-append)
          (ground arith),
    )
  ]

  -- take waits exactly when the buffer is empty. Otherwise it removes the oldest element.
  pub take_section_lem :
      (ring : B)
      → ((take_section r ring ≡ waits) × (contents ring ≡ []))
        ⊎ ((ring' : B) × (x : A) × (take_section r ring ≡ leaves (ring', x))
            × (contents ring ≡ x ∷ contents ring')
            × (r.capacity ring' ≡ r.capacity ring))
  unfolding take_section
  take_section_lem ring = by_contents (contents ring) refl
    where
      by_contents :
          (xs : List A)
          → contents ring ≡ xs
          → ((take_section r ring ≡ waits) × (contents ring ≡ []))
            ⊎ ((ring' : B) × (x : A) × (take_section r ring ≡ leaves (ring', x))
                × (contents ring ≡ x ∷ contents ring')
                × (r.capacity ring' ≡ r.capacity ring))
      by_contents [] e = inl (rw (empty_lem ring, e), e)
      by_contents (x ∷ xs) e = inr (
        r.pop_front ring,
        x,
        rw (empty_lem ring, e, front_lem x xs ring e) (ground arith),
        e ∙ ap (λ t. x ∷ t) (sym (pop_front-contents x xs ring e)),
        pop_front-capacity ring,
      )

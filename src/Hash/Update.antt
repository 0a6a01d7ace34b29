-- ===== src/Hash/Update.antt =====
-- hash_insert(), hash_replace() and hash_delete() of lib/kernel/hash.c.
use pint_os_assignment.Common.{
  ℕ, ◌+◌, ◌-◌, ◌^◌, ◌<◌, ◌≡◌, refl, ap, ◌∙◌, Bool, true, false, not, ◌&&◌, Option, none, some,
  arith, ◌==◌, if◌then◌else◌, inl, inr, Bool-cases,
}
use pint_os_assignment.Hash.{
  Hash, find_bucket, same, insert_elem, remove_elem, rehash, insert_new, remove_old, delete_found,
  hash_find, hash_insert, hash_replace, hash_delete,
}
use pint_os_assignment.Hash.Sound.{IsSound, occurs, same_sym}
use pint_os_assignment.Hash.Find.{
  Looked, got, nothing, hash_find_correct, hash_find_in, hash_find_absent,
}
use pint_os_assignment.Hash.Change.{
  IsChanged, one_at, insert_elem-IsChanged, remove_elem-IsChanged, remove_elem_smaller,
  rehash-IsChanged,
}

-- Whether it is the element that was found.
abbrev pub is_found : Option ℕ → ℕ → Bool
is_found none x = false
is_found (some a) x = a == x

abbrev pub found_none : Option ℕ → Bool
found_none none = true
found_none (some a) = false

-- On a table in order, whose client's callbacks agree and which is not full, hash_insert returns an
-- element of the table that is the same as the new one, or none and then the new one is in; all
-- else is as before and the table is in order, with and without memory for new buckets.
pub hash_insert_correct :
    (memory : Bool) (h : Hash) (new : ℕ)
    → IsSound h
    → h.elem_cnt + 1 < 2 ^ 32
    → let (old, h') = hash_insert memory h new in
      Looked h new old
      × IsChanged h h' (λ x. occurs h x + (if found_none old && new == x then 1 else 0))
unfolding hash_insert hash_find insert_new
hash_insert_correct memory h new v small = go (hash_find_correct h new v.keyed)
  where
    go :
        {old : Option ℕ}
        → Looked h new old
        → Looked h new old
          × IsChanged h
              (rehash memory (insert_new old h new))
              (λ x. occurs h x + (if found_none old && new == x then 1 else 0))
    go (got a o s) = (
      got a o s,
      rehash-IsChanged memory h h _
          (record { sound = v; amounts = λ x. omega arith; less_kept = refl }),
    )
    go (nothing f) =
        (nothing f, rehash-IsChanged memory h _ _ (insert_elem-IsChanged h new v f small))

-- Without the element that is the same as the new one, the new one is no element's same.
no_other :
    (h h' : Hash) (a e : ℕ)
    → IsSound h
    → same h a e ≡ true
    → 0 < occurs h a
    → IsChanged h h' (λ x. occurs h x - one_at a x)
    → (x : ℕ) → 0 < occurs h' x
    → same h' x e ≡ false
no_other h h' a e v s o c x p = elim (Bool-cases (same h x e)) [
  | inl t ↦
      let q : x ≡ a =
        v.distinct x a (omega (arith, c.amounts x)) o
          (v.keyed.same_trans x e a t (same_sym h a e s)) in
      absurd (ground (arith, c.amounts x, v.once x))
  | inr t ↦ ap (λ l. not (l x e) && not (l e x)) c.less_kept ∙ t
]

replace_into :
    (h : Hash) (a new : ℕ)
    → IsSound h
    → same h a new ≡ true
    → 0 < occurs h a
    → IsChanged h
        (insert_elem (remove_elem h a) (find_bucket h new) new)
        (λ x. occurs h x - one_at a x + one_at new x)
unfolding remove_elem find_bucket
replace_into h a new v s o =
    let c = remove_elem-IsChanged h a v o in
    let d =
      insert_elem-IsChanged (remove_elem h a) new c.sound (no_other h _ a new v s o c)
        (omega (arith, remove_elem_smaller h a v o, v.small)) in
    record {
      sound = d.sound;
      amounts = λ x. omega (arith, c.amounts x, d.amounts x);
      less_kept = d.less_kept;
    }

-- hash_replace puts the new element in whether or not one is the same, which it returns and which is
-- out of the table then; all else is as before, the table is in order, and hash_find finds the new
-- element.
pub hash_replace_correct :
    (memory : Bool) (h : Hash) (new : ℕ)
    → IsSound h
    → h.elem_cnt + 1 < 2 ^ 32
    → let (old, h') = hash_replace memory h new in
      Looked h new old
      × IsChanged h h' (λ x. occurs h x - (if is_found old x then 1 else 0) + one_at new x)
      × (hash_find h' new ≡ some new)
unfolding hash_replace hash_find remove_old
hash_replace_correct memory h new v small = go (hash_find_correct h new v.keyed)
  where
    go :
        {old : Option ℕ}
        → Looked h new old
        → let h' = rehash memory (insert_elem (remove_old old h) (find_bucket h new) new) in
          Looked h new old
          × IsChanged h h' (λ x. occurs h x - (if is_found old x then 1 else 0) + one_at new x)
          × (hash_find h' new ≡ some new)
    go (got a o s) =
        let c = rehash-IsChanged memory h _ _ (replace_into h a new v s o) in
        (got a o s, c, hash_find_in _ new c.sound (ground (arith, c.amounts new)))
    go (nothing f) =
        let c = rehash-IsChanged memory h _ _ (insert_elem-IsChanged h new v f small) in
        (
          nothing f,
          record {
            sound = c.sound;
            amounts = λ x. omega (arith, c.amounts x);
            less_kept = c.less_kept;
          },
          hash_find_in _ new c.sound (ground (arith, c.amounts new)),
        )

-- hash_delete takes the element out that is the same as the one given, and returns it; if there is
-- none the table stays. All else is as before, the table is in order, and hash_find finds none then.
pub hash_delete_correct :
    (memory : Bool) (h : Hash) (e : ℕ)
    → IsSound h
    → let (found, h') = hash_delete memory h e in
      Looked h e found
      × IsChanged h h' (λ x. occurs h x - (if is_found found x then 1 else 0))
      × (hash_find h' e ≡ none)
unfolding hash_delete hash_find delete_found
hash_delete_correct memory h e v = go (hash_find_correct h e v.keyed)
  where
    go :
        {found : Option ℕ}
        → Looked h e found
        → let h' = delete_found memory found h in
          Looked h e found
          × IsChanged h h' (λ x. occurs h x - (if is_found found x then 1 else 0))
          × (hash_find h' e ≡ none)
    go (got a o s) =
        let c = rehash-IsChanged memory h _ _ (remove_elem-IsChanged h a v o) in
        (got a o s, c, hash_find_absent _ e c.sound.keyed (no_other h _ a e v s o c))
    go (nothing f) = (
      nothing f,
      record { sound = v; amounts = λ x. omega arith; less_kept = refl },
      hash_find_absent h e v.keyed f,
    )

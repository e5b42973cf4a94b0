-- ===== src/Page/Meta/FreeList.antt =====
-- The free list of a valid meta page: pushing, and popping what was pushed.
use rust_db.Common.{
  ℕ, ◌+◌, ◌^◌, ◌≤◌, ◌<◌, ◌≡◌, ◌≢◌, ◌⊎◌, inl, inr, refl, ltb, leb, ◌==◌, true, false, ok, err,
  Option, none, some, Bool-cases, arith,
}
use rust_db.Types.{Bytes, PageId, page_id_eq?, page_id_eq_self}
use rust_db.PageError.{wrong_table, reserved_page, page_out_of_range, already_free}
use rust_db.Schema.Values.{VarInt}
use rust_db.Schema.Columns.{Schema}
use rust_db.Page.{Page, meta, free, is_some_and}
use rust_db.Page.Invariants.{IsValid}
use rust_db.Page.Invariants.Decides.{debug_check-IsValid}
use rust_db.Page.Meta.{free_list_push, free_list_pop, meta_bump_page_count}

module _ ⦃v : VarInt⦄ (meta_id : PageId) (meta_lsn lsn : Option ℕ) (root_id : PageId)
    (head : Option PageId) (s : Schema) (name : Bytes) where
  -- The meta page with a count and a head, and a free page with what follows it.
  abbrev listing : ℕ → Option PageId → Page
  listing count start = record {
    page_id = meta_id;
    last_update = meta_lsn;
    body = meta root_id count start s name;
  }

  abbrev freed : PageId → Option PageId → Page
  freed id next = record { page_id = id; last_update = lsn; body = free next }

  -- The page is of another table; or the meta page itself; or was never allocated; or is the head
  -- already; or it becomes the head, followed by the old one, and can be taken back.
  abbrev pub PushCases : ℕ → PageId → Option PageId → Type 0
  PushCases count id next =
      ((id.table_id ≢ root_id.table_id)
        × (free_list_push (listing count head) (freed id next) ≡ err (wrong_table id)))
      ⊎ ((id.page_num ≡ 0)
          × (free_list_push (listing count head) (freed id next) ≡ err reserved_page))
      ⊎ ((count ≤ id.page_num)
          × (free_list_push (listing count head) (freed id next) ≡ err (page_out_of_range id)))
      ⊎ ((page_id_eq? head (some id) ≡ true)
          × (free_list_push (listing count head) (freed id next) ≡ err (already_free id)))
      ⊎ ((id.table_id ≡ root_id.table_id)
          × (1 ≤ id.page_num)
          × (id.page_num < count)
          × (page_id_eq? head (some id) ≡ false)
          × (free_list_push (listing count head) (freed id next)
              ≡ ok (listing count (some id), freed id head))
          × IsValid (listing count (some id))
          × (free_list_pop (listing count (some id)) (freed id head) ≡ ok (id, listing count head)))

  pushed-IsValid :
      (count : ℕ) (id : PageId)
      → IsValid (listing count head)
      → id.page_num < count
      → IsValid (listing count (some id))
  pushed-IsValid count id h inside = record { fits = h.fits; sound = (ground arith, h.sound.1) }

  pop_pushed :
      (count : ℕ) (id : PageId)
      → IsValid (listing count head)
      → free_list_pop (listing count (some id)) (freed id head) ≡ ok (id, listing count head)
  unfolding free_list_pop
  pop_pushed count id h = rw (page_id_eq_self id, debug_check-IsValid _ h, free_list_pop)

  -- On a valid meta page `free_list_push` reports a page of another table, page number 0, a page
  -- number that was never allocated, or the head of the list; else none of these holds, the page
  -- becomes the head with the old head after it, the meta page is valid, and `free_list_pop`
  -- returns the page's id and the meta page as it was.
  pub free_list_push-PushCases :
      (count : ℕ) (id : PageId) (next : Option PageId)
      → IsValid (listing count head)
      → PushCases count id next
  unfolding free_list_push
  free_list_push-PushCases count id next h = elim (Bool-cases (id.table_id == root_id.table_id)) [
    | inr foreign ↦ inl (ground arith, rw (foreign, free_list_push))
    | inl same ↦ inr (elim (Bool-cases (id.page_num == 0)) [
      | inl zeroth ↦ inl (ground arith, rw (same, zeroth, free_list_push))
      | inr plain ↦ inr (elim (Bool-cases (ltb id.page_num count)) [
        | inr beyond ↦ inl (ground arith, rw (same, plain, beyond, free_list_push))
        | inl inside ↦ inr (elim (Bool-cases (page_id_eq? head (some id))) [
          | inl already ↦ inl (already, rw (same, plain, inside, already, free_list_push))
          | inr fresh ↦
              let valid = pushed-IsValid count id h (ground arith) in
              inr (
                ground (arith, same),
                ground (arith, plain),
                ground (arith, inside),
                fresh,
                rw (same, plain, inside, fresh, debug_check-IsValid _ valid, free_list_push),
                valid,
                pop_pushed count id h,
              )
        ])
      ])
    ])
  ]

  head_is_not_new :
      (count : ℕ) (o : Option PageId) (id : PageId)
      → is_some_and o (λ h. leb count h.page_num) ≡ false
      → id.page_num ≡ count
      → page_id_eq? o (some id) ≡ false
  head_is_not_new count none id h e = refl
  head_is_not_new count (some o) id h e = ground arith

  -- On a valid meta page whose page count is at least 1 and below the largest `u32`,
  -- `meta_bump_page_count` returns an id with the old count as its number and adds one to the
  -- count, and a free page with that id can then be pushed on the free list.
  pub bump-push :
      (count : ℕ) (next : Option PageId)
      → IsValid (listing count head)
      → 1 ≤ count
      → count + 1 < 2 ^ 32
      → (id : PageId) × (meta_bump_page_count (listing count head)
          ≡ ok (id, listing (count + 1) head))
        × (id.page_num ≡ count)
        × (free_list_push (listing (count + 1) head) (freed id next)
            ≡ ok (listing (count + 1) (some id), freed id head))
  unfolding free_list_push meta_bump_page_count
  bump-push count next h one small =
      let id : PageId = record { table_id = root_id.table_id; page_num = count } in
      let grown : IsValid (listing (count + 1) head) = record {
        fits = h.fits;
        sound = (grow head h.sound.0, h.sound.1);
      } in
      let valid = pushed-IsValid (count + 1) id grown (omega arith) in
      let room : ltb (count + 1) (2 ^ 32) ≡ true = ground arith in
      let same : (root_id.table_id == root_id.table_id) ≡ true = ground arith in
      let plain : (count == 0) ≡ false = ground arith in
      let inside : ltb count (count + 1) ≡ true = ground arith in
      let fresh : page_id_eq? head (some id) ≡ false =
        head_is_not_new count head id h.sound.0 refl in
      (
        id,
        rw (room, meta_bump_page_count),
        refl,
        rw (same, plain, inside, fresh, debug_check-IsValid _ valid, free_list_push),
      )
    where
      grow :
          (o : Option PageId)
          → is_some_and o (λ h. leb count h.page_num) ≡ false
          → is_some_and o (λ h. leb (count + 1) h.page_num) ≡ false
      grow none e = refl
      grow (some o) e = ground arith

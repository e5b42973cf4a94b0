-- ===== src/Bpm/Consistent.antt =====
-- The pool's invariant: a page that the page table has is in its frame, and a free frame is not in
-- the page table. What the page table and the frames are after one of them changes.
use rust_db.Common.{
  ℕ, zero, suc, ◌≡◌, ◌≢◌, ◌⊎◌, inl, inr, refl, sym, ap, ◌∙◌, Bool, true, false, List, [], ◌∷◌,
  Option, none, some, get_elem?, set, All, subst,
}
use rust_db.Types.{PageId, page_id_eq, page_id_eq→eq}
use rust_db.Page.{Page}
use rust_db.Bpm.Frames.{Frame}
use rust_db.Bpm.Swept.{AllSwept}
use rust_db.Bpm.State.{BufferPool, table_get, table_remove, table_insert}

-- The page in a frame.
abbrev pub latch_of : Option Frame → Option Page
latch_of none = none
latch_of (some f) = f.latch

abbrev pub held : List Frame → ℕ → Option Page
held frames f = latch_of (get_elem? frames f)

abbrev pub IsUnmapped : List (PageId × ℕ) → ℕ → Type 0
IsUnmapped table f = (id : PageId) → table_get table id ≢ some f

abbrev pub AllDistinct : List ℕ → Type 0
AllDistinct [] = Unit
AllDistinct (f ∷ fs) = All (λ g. f ≢ g) fs × AllDistinct fs

abbrev pub AllMapped : List (PageId × ℕ) → List Frame → Type 0
AllMapped table frames =
    (id : PageId) (f : ℕ)
    → table_get table id ≡ some f
    → (p : Page) × (held frames f ≡ some p) × (p.page_id ≡ id)

pub record IsConsistent {D Ep : Type 0} (s : BufferPool D Ep) : Type 0 where
  pub mapped : AllMapped s.page_table s.frames
  pub apart : All (IsUnmapped s.page_table) s.free_frames
  pub distinct : AllDistinct s.free_frames

pub get-remove :
    (table : List (PageId × ℕ)) (id j : PageId) (f : ℕ)
    → table_get (table_remove table id) j ≡ some f
    → (table_get table j ≡ some f) × (id ≢ j)
unfolding table_get table_remove
get-remove [] id j f e = absurd (clash e)
  where
    clash : none ≡ some f → ⊥
    clash q = cc
get-remove ((k, g) ∷ table) id j f e =
    go (page_id_eq k id) (page_id_eq k j) refl refl (get-remove table id j f)
  where
    there : page_id_eq k id ≡ true → page_id_eq k j ≡ true → id ≡ j
    there a b = sym (page_id_eq→eq k id a) ∙ page_id_eq→eq k j b

    apart : page_id_eq k id ≡ false → page_id_eq k j ≡ true → id ≢ j
    apart a b same = clash (subst (λ x. page_id_eq k x ≡ true) (sym same) b)
      where
        clash : page_id_eq k id ≡ true → ⊥
        clash q = cc

    go :
        (b c : Bool)
        → page_id_eq k id ≡ b
        → page_id_eq k j ≡ c
        → (table_get (table_remove table id) j ≡ some f → (table_get table j ≡ some f) × (id ≢ j))
        → (table_get ((k, g) ∷ table) j ≡ some f) × (id ≢ j)
    go true true a b ih = let (kept, n) = ih (rw a at e) in absurd (n (there a b))
    go true false a b ih = let (kept, n) = ih (rw a at e) in (rw b kept, n)
    go false true a b ih = (rw b (rw (a, b, table_get) at e), apart a b)
    go false false a b ih = let (kept, n) = ih (rw (a, b, table_get) at e) in (rw b kept, n)

pub get-insert :
    (table : List (PageId × ℕ)) (id j : PageId) (f g : ℕ)
    → table_get (table_insert table id f) j ≡ some g
    → ((id ≡ j) × (f ≡ g)) ⊎ ((id ≢ j) × (table_get table j ≡ some g))
unfolding table_get
get-insert table id j f g e = go (page_id_eq id j) refl
  where
    some_inj : {a b : ℕ} → some a ≡ some b → a ≡ b
    some_inj q = cc

    go :
        (b : Bool)
        → page_id_eq id j ≡ b
        → ((id ≡ j) × (f ≡ g)) ⊎ ((id ≢ j) × (table_get table j ≡ some g))
    go true a = inl (page_id_eq→eq id j a, some_inj (rw (a, table_get) at e))
    go false a = let (kept, n) = get-remove table id j g (rw (a, table_get) at e) in inr (n, kept)

-- The frame that holds a page.
pub frame_of :
    (frames : List Frame) (i : ℕ) (p : Page)
    → held frames i ≡ some p
    → (f : Frame) × (get_elem? frames i ≡ some f) × (f.latch ≡ some p)
frame_of frames i p e = go (get_elem? frames i) refl
  where
    clash : none ≡ some p → ⊥
    clash q = cc

    go :
        (o : Option Frame)
        → get_elem? frames i ≡ o
        → (f : Frame) × (get_elem? frames i ≡ some f) × (f.latch ≡ some p)
    go none q = absurd (clash (sym (ap latch_of q) ∙ e))
    go (some f) q = (f, q, sym (ap latch_of q) ∙ e)

pub held-set :
    (frames : List Frame) (i : ℕ) (old new : Frame)
    → get_elem? frames i ≡ some old
    → held (set frames i new) i ≡ new.latch
held-set [] i old new e = cc
held-set (x ∷ frames) zero old new e = refl
held-set (x ∷ frames) (suc i) old new e = held-set frames i old new e

pub held-set_other :
    (frames : List Frame) (i j : ℕ) (new : Frame)
    → i ≢ j
    → held (set frames i new) j ≡ held frames j
held-set_other [] i j new n = refl
held-set_other (x ∷ frames) zero zero new n = absurd (n refl)
held-set_other (x ∷ frames) zero (suc j) new n = refl
held-set_other (x ∷ frames) (suc i) zero new n = refl
held-set_other (x ∷ frames) (suc i) (suc j) new n =
    held-set_other frames i j new (λ e. n (ap suc e))

pub held-AllSwept : (fs gs : List Frame) (i : ℕ) → AllSwept fs gs → held gs i ≡ held fs i
held-AllSwept [] [] i a = refl
held-AllSwept [] (g ∷ gs) i a = absurd a
held-AllSwept (f ∷ fs) [] i a = absurd a
held-AllSwept (f ∷ fs) (g ∷ gs) zero a = a.0.0
held-AllSwept (f ∷ fs) (g ∷ gs) (suc i) a = held-AllSwept fs gs i a.1

pub get-set :
    (frames : List Frame) (i : ℕ) (old new : Frame)
    → get_elem? frames i ≡ some old
    → get_elem? (set frames i new) i ≡ some new
get-set [] i old new e = cc
get-set (x ∷ frames) zero old new e = refl
get-set (x ∷ frames) (suc i) old new e = get-set frames i old new e

pub held-set_latch :
    (frames : List Frame) (i j : ℕ) (old new : Frame)
    → get_elem? frames i ≡ some old
    → new.latch ≡ old.latch
    → held (set frames i new) j ≡ held frames j
held-set_latch [] i j old new e same = refl
held-set_latch (x ∷ frames) zero zero old new e same =
    let own : x ≡ old = cc in same ∙ sym (ap (λ f. f.latch) own)
held-set_latch (x ∷ frames) zero (suc j) old new e same = refl
held-set_latch (x ∷ frames) (suc i) zero old new e same = refl
held-set_latch (x ∷ frames) (suc i) (suc j) old new e same =
    held-set_latch frames i j old new e same

-- Nothing depends on the frames but through the pages that they hold.
pub AllMapped-held :
    (table : List (PageId × ℕ)) (frames frames' : List Frame)
    → ((i : ℕ) → held frames' i ≡ held frames i)
    → AllMapped table frames
    → AllMapped table frames'
AllMapped-held table frames frames' same h id f e =
    let (p, there, own) = h id f e in (p, same f ∙ there, own)

-- A page that is put into an unmapped frame is not missed.
pub AllMapped-fill :
    (table : List (PageId × ℕ)) (frames : List Frame) (i : ℕ) (new : Frame)
    → IsUnmapped table i
    → AllMapped table frames
    → AllMapped table (set frames i new)
AllMapped-fill table frames i new free h id f e =
    let (p, there, own) = h id f e in
    (p, held-set_other frames i f new (λ same. free id (e ∙ ap some (sym same))) ∙ there, own)

-- The frame is mapped under the id of its page.
pub AllMapped-insert :
    (table : List (PageId × ℕ)) (frames : List Frame) (id : PageId) (i : ℕ) (p : Page)
    → held frames i ≡ some p
    → p.page_id ≡ id
    → AllMapped table frames
    → AllMapped (table_insert table id i) frames
AllMapped-insert table frames id i p there own h j f e = elim (get-insert table id j i f e) [
  | inl (same, here) ↦ (p, ap (held frames) (sym here) ∙ there, own ∙ same)
  | inr (apart, kept) ↦ h j f kept
]

pub AllMapped-remove :
    (table : List (PageId × ℕ)) (frames : List Frame) (id : PageId)
    → AllMapped table frames
    → AllMapped (table_remove table id) frames
AllMapped-remove table frames id h j f e = h j f (get-remove table id j f e).0

-- Without its page's entry a frame is unmapped.
pub IsUnmapped-remove :
    (table : List (PageId × ℕ)) (frames : List Frame) (p : Page) (i : ℕ)
    → held frames i ≡ some p
    → AllMapped table frames
    → IsUnmapped (table_remove table p.page_id) i
IsUnmapped-remove table frames p i there h id e =
    let (kept, apart) = get-remove table p.page_id id i e in
    let (q, held_q, own) = h id i kept in apart (same_page (sym there ∙ held_q) ∙ own)
  where
    same_page : {q : Page} → some p ≡ some q → p.page_id ≡ q.page_id
    same_page e = cc

pub IsUnmapped-remove_other :
    (table : List (PageId × ℕ)) (id : PageId) (i : ℕ)
    → IsUnmapped table i
    → IsUnmapped (table_remove table id) i
IsUnmapped-remove_other table id i h j e = h j (get-remove table id j i e).0

pub IsUnmapped-insert :
    (table : List (PageId × ℕ)) (id : PageId) (i j : ℕ)
    → i ≢ j
    → IsUnmapped table j
    → IsUnmapped (table_insert table id i) j
IsUnmapped-insert table id i j n h k e = elim (get-insert table id k i j e) [
  | inl (same, here) ↦ n here
  | inr (apart, kept) ↦ h k kept
]

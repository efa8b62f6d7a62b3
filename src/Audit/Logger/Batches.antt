-- ===== src/Audit/Logger/Batches.antt =====
-- writeBatch and flush of internal/audit/audit.go: what a batch does to the table.
use cloud_file_server.Base.{
  ℕ, zero, suc, ◌≤◌, ◌≡◌, ◌≢◌, nat_beq, nat_beq_iff, Bool-cases, inl, inr, refl, ap, ◌∙◌, Bool,
  true, false, ◌&&◌, List, [], ◌∷◌, ◌++◌, none, some, if◌then◌else◌, length, arith, append_assoc,
  append-nil,
}
use cloud_file_server.Auth.Runes.{runes}
use cloud_file_server.Audit.Event.{Event}
use cloud_file_server.Audit.Logger.{Logger, fits, fits_column, insert_all, write_batch, flush}

abbrev pub all_fit : List Event → Bool
all_fit [] = true
all_fit (e ∷ batch) = fits e && all_fit batch

-- The loop of inserts against its meaning.
insert_all_lem :
    (done batch : List Event)
    → insert_all done batch ≡ (if all_fit batch then some (done ++ batch) else none)
unfolding insert_all
insert_all_lem done [] = rw append-nil
insert_all_lem done (e ∷ batch) =
    ground (arith, insert_all_lem (done ++ (e ∷ [])) batch, append_assoc done (e ∷ []) batch)

-- A flush appends the whole buffer, in order, if the transaction runs and every event fits its
-- columns; otherwise the table stays and the whole buffer is lost.
pub flush-stored :
    (up : Bool) (l : Logger)
    → (flush up l).stored ≡ (if up && all_fit l.buf then l.stored ++ l.buf else l.stored)
unfolding flush write_batch
flush-stored up l = ground (arith, insert_all_lem l.stored l.buf, append-nil l.stored)

pub all_fit-append : (xs ys : List Event) → all_fit (xs ++ ys) ≡ all_fit xs && all_fit ys
all_fit-append [] ys = refl
all_fit-append (x ∷ xs) ys = ground (arith, all_fit-append xs ys)

fits_column_beyond :
    (n : ℕ) (cs rest : List ℕ) (c : ℕ)
    → n ≤ length cs
    → c ≢ 32
    → fits_column n (cs ++ (c ∷ rest)) ≡ false
unfolding fits_column
fits_column_beyond zero [] rest c h k = elim (Bool-cases (nat_beq c 32)) [
  | inl space ↦ absurd (k (ground (arith, nat_beq_iff c 32)))
  | inr other ↦ rw other refl
]
fits_column_beyond (suc n) [] rest c h k = absurd (omega arith)
fits_column_beyond zero (d ∷ cs) rest c h k =
    let later = fits_column_beyond zero cs rest c (omega arith) k in ground arith
fits_column_beyond (suc n) (d ∷ cs) rest c h k = fits_column_beyond n cs rest c (omega arith) k

all_fit-beyond :
    (before after : List Event) (e : Event)
    → fits_column 64 (runes e.username) ≡ false
    → all_fit (before ++ (e ∷ after)) ≡ false
unfolding fits
all_fit-beyond [] after e h = ground arith
all_fit-beyond (x ∷ before) after e h = ground (arith, all_fit-beyond before after e h)

-- One event whose username has a character beyond the 64th that is no space loses the whole batch: the
-- table stays as it was, and the buffer, with the events of everybody else in it, is emptied.
pub flush_long_name :
    (up : Bool) (l : Logger) (before after : List Event) (e : Event) (name rest : List ℕ) (c : ℕ)
    → l.buf ≡ before ++ (e ∷ after)
    → runes e.username ≡ name ++ (c ∷ rest)
    → 64 ≤ length name
    → c ≢ 32
    → ((flush up l).stored ≡ l.stored) × ((flush up l).buf ≡ [])
flush_long_name up l before after e name rest c h named long other =
    let over = ap (fits_column 64) named ∙ fits_column_beyond 64 name rest c long other in
    (
      flush-stored up l ∙ ground (arith, ap all_fit h, all_fit-beyond before after e over),
      unfold flush in ground arith,
    )

-- ===== src/Store/History.antt =====
-- Any sequence of calls on a new store, by any number of writers, readers and waiting opens.
use buff.Common.{ℕ, ◌≡◌, Bool, true, false, Option, Bytes, arith}
use buff.Clip.Errors.{Error}
use buff.Clip.Meta.{Meta}
use buff.Buffer.{Backing}
use buff.Buffer.Log.{Honest}
use buff.Store.Quota.{Config}
use buff.Store.State.{Store, new_store}
use buff.Store.Medium.{Medium}
use buff.Store.Reaper.{reap_expired}
use buff.Store.Create.{PutOpts, Writer, CreateInputs, create}
use buff.Store.Writer.{write, close, abort}
use buff.Store.Open.{
  GetOpts, OpenCall, LeasedReader, open_start, open_turn, open_cancel, close_reader,
}
use buff.Store.Manage.{stat, delete}
use buff.Store.Accounting.{total}
use buff.Store.Invariant.{Inv}
use buff.Store.Invariant.Sweep.{reap_expired-Inv}
use buff.Store.Invariant.Admission.{create-Inv}
use buff.Store.Invariant.Writing.{Owns, write-Inv}
use buff.Store.Invariant.Closing.{close-Inv, abort-Inv}
use buff.Store.Invariant.Reading.{IsClaimed, close_reader-Inv, stat-Inv, delete-Inv}
use buff.Store.Invariant.Claiming.{open_start-Inv, open_turn-Inv, open_cancel-Inv}

-- One call. A writer that is not done owns its generation, and a reader that is to clean up one
-- holds its claim.
pub data Call (s t : Store) : Type 0 where
  creates :
      (k : Medium) (i : CreateInputs) (name : Bytes) (m : Meta) (o : PutOpts)
      → t ≡ (create k i name m o s).0
      → Call s t
  writes :
      (k : Medium) (b : Backing) (w : Writer) (p : Bytes) (now : ℕ)
      → Honest b
      → (w.done ≡ false → Owns s w)
      → t ≡ (write k b s w p now).0
      → Call s t
  closes :
      (k : Medium) (b : Backing) (w : Writer) (now : ℕ)
      → (w.done ≡ false → Owns s w)
      → t ≡ (close k b s w now).0
      → Call s t
  aborts : (b : Backing) (w : Writer) → (w.done ≡ false → Owns s w) → t ≡ (abort b s w).0 → Call s t
  starts_open :
      (name : Bytes) (o : GetOpts) (ctx : Option Error) → t ≡ (open_start name o ctx s).0 → Call s t
  turns_open :
      (k : Medium) (b : Backing) (ctx : Option Error) (elapsed : Bool) (now : ℕ) (c : OpenCall)
      → t ≡ (open_turn k b ctx elapsed now s c).0
      → Call s t
  cancels_open :
      (c : OpenCall) (elapsed : Bool) (e : Error) → t ≡ (open_cancel s c elapsed e).0 → Call s t
  closes_reader :
      (r : LeasedReader)
      → (r.closed ≡ false → r.cleanup ≡ true → IsClaimed s r.gen)
      → t ≡ (close_reader s r).0
      → Call s t
  stats : (name : Bytes) (now : ℕ) → t ≡ (stat name now s).0 → Call s t
  deletes : (k : Medium) (name : Bytes) (now : ℕ) → t ≡ (delete k name now s).0 → Call s t
  reaps : (k : Medium) (now : ℕ) → t ≡ (reap_expired k s now).0 → Call s t

pub data Reach (s : Store) : Store → Type 0 where
  here : Reach s s
  next : {t u : Store} → Reach s t → Call t u → Reach s u

pub Call-Inv : {s t : Store} → Call s t → Inv s → Inv t
Call-Inv {s} (creates k i name m o e) v = rw e (create-Inv k i name m o s v)
Call-Inv {s} (writes k b w p now h o e) v = rw e (write-Inv k b s w p now h o v)
Call-Inv {s} (closes k b w now o e) v = rw e (close-Inv k b s w now o v)
Call-Inv {s} (aborts b w o e) v = rw e (abort-Inv b s w o v)
Call-Inv {s} (starts_open name o ctx e) v = rw e (open_start-Inv name o ctx s v)
Call-Inv {s} (turns_open k b ctx elapsed now c e) v =
    rw e (open_turn-Inv k b ctx elapsed now s c v).0
Call-Inv {s} (cancels_open c elapsed x e) v = rw e (open_cancel-Inv s c elapsed x v)
Call-Inv {s} (closes_reader r h e) v = rw e (close_reader-Inv s r h v)
Call-Inv {s} (stats name now e) v = rw e (stat-Inv name now s v)
Call-Inv {s} (deletes k name now e) v = rw e (delete-Inv k name now s v)
Call-Inv {s} (reaps k now e) v = rw e (reap_expired-Inv k s now v)

pub new_store-Inv : (c : Config) → Inv (new_store c)
unfolding new_store total
new_store-Inv c = record {
  current_gen = λ h g e. cc;
  live_gen = λ h g e. cc;
  current_once = λ h j g e. cc;
  live_once = λ h j g e. cc;
  bytes_held = omega arith;
  clips_held = omega arith;
}

pub Reach-accounts : (c : Config) {t : Store} → Reach (new_store c) t → Inv t
Reach-accounts c here = new_store-Inv c
Reach-accounts c (next r m) = Call-Inv m (Reach-accounts c r)

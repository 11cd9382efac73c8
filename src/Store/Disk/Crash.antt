-- ===== src/Store/Disk/Crash.antt =====
-- What a crash leaves of a home (store/disk.go): a directory is as it was at its last sync or after
-- any of the changes since, and a file that was not flushed holds anything.
pub mod Retired
pub mod Recording
pub mod Published
use buff.Common.{
  ℕ, ◌≡◌, refl, ◌⊎◌, inl, inr, Bool, true, Option, Option-cases, sym, none, some, List, [], ◌∷◌,
  Bytes, arith,
}
use mathlib.Core.List.{Memᴰ}
use mathlib.Core.List.Memᴰ.{head, tail}
use buff.Store.Disk.{
  File, Home, Names, Os, bind, change, missing, sync_home, rename, unlink_each, remove_all,
  put_file,
}
use buff.Store.Disk.Commit.{remove}

-- A state of the directory that a crash can leave.
abbrev pub Left : Home → Option Names → Type 0
Left h n = (n ≡ h.seen) ⊎ Memᴰ n h.past

abbrev pub Always : (Option Names → Type 0) → Home → Type 0
Always P h = (n : Option Names) → Left h n → P n

-- The files of a directory after the start, by name.
abbrev pub Files : Type 0
Files = Bytes → Option Bytes

-- The files are those of the state `n`, and the flushed ones have their content.
pub record Keeps (h : Home) (n : Names) (f : Files) : Type 0 where
  pub absent : (k : Bytes) → n k ≡ none → f k ≡ none
  pub kept :
      (k : Bytes) (i : ℕ)
      → n k ≡ some i
      → (h.files i).flushed ≡ true
      → f k ≡ some (h.files i).content

pub data Crashed (h : Home) : Option Files → Type 0 where
  gone : Left h none → Crashed h none
  stays : (n : Names) (f : Files) → Left h (some n) → Keeps h n f → Crashed h (some f)

module _ (P : Option Names → Type 0) where
  pub change-Always : (h : Home) (n : Option Names) → Always P h → P n → Always P (change h n)
  change-Always h n a p m (inl e) = rw e p
  change-Always h n a p m (inr (head e)) = a m (inl e)
  change-Always h n a p m (inr (tail d)) = a m (inr d)

  missing-Memᴰ : (n : Option Names) (ns : List (Option Names)) → Memᴰ n (missing ns) → Memᴰ n ns
  unfolding missing
  missing-Memᴰ n [] m = elim m [ ]
  missing-Memᴰ n (none ∷ ns) (head e) = head e
  missing-Memᴰ n (none ∷ ns) (tail m) = tail (missing-Memᴰ n ns m)
  missing-Memᴰ n (some k ∷ ns) m = tail (missing-Memᴰ n ns m)

  synced-Always : (h : Home) → Always P h → Always P (record h { past = missing h.past })
  synced-Always h a n (inl e) = a n (inl e)
  synced-Always h a n (inr m) = a n (inr (missing-Memᴰ n h.past m))

  pub sync_home-Always : (os : Os) (h : Home) → Always P h → Always P (sync_home os h).0
  unfolding sync_home
  sync_home-Always os h a = elim (Option-cases h.seen) [
    | inl e ↦ rw (e, sync_home) a
    | inr (n, e) ↦ elim (Option-cases os.sync_dir_fault) [
      | inl f ↦ rw (e, sync_home, f) (synced-Always h a)
      | inr (x, f) ↦ rw (e, sync_home, f) a
    ]
  ]

  pub unlink_each-Always :
      ((n : Names) (k : Bytes) → P (some n) → P (some (bind n k none)))
      → (ks : List Bytes) (h : Home) → Always P h
      → Always P (unlink_each ks h)
  unfolding unlink_each
  unlink_each-Always c [] h a = a
  unlink_each-Always c (k ∷ ks) h a = elim (Option-cases h.seen) [
    | inl e ↦ rw (e, unlink_each) a
    | inr (n, e) ↦
        rw (e, unlink_each)
          (unlink_each-Always c ks (change h (some (bind n k none)))
            (change-Always h (some (bind n k none)) a (c n k (a (some n) (inl (sym e))))))
  ]

  pub remove-Always :
      P none
      → ((n : Names) (k : Bytes) → P (some n) → P (some (bind n k none)))
      → (os : Os) (h : Home) → Always P h
      → Always P (remove os h)
  unfolding remove remove_all
  remove-Always p c os h a =
      let u = unlink_each-Always c os.order h a in
      elim (Option-cases os.remove_fault) [
        | inl e ↦ rw (e, remove, remove_all) (change-Always (unlink_each os.order h) none u p)
        | inr (x, e) ↦ rw (e, remove, remove_all) u
      ]

-- ===== src/Api/Upload/Created.antt =====
-- The writer that `Create` hands to the PUT handler.
use buff.Common.{
  ℕ, ◌≡◌, refl, ◌⊎◌, inl, inr, true, false, not, ◌&&◌, Bool, arith, Option-cases, Sum-cases,
  if_elim, Bytes, bytes_eq, [], is_some,
}
use buff.Clip.Errors.{Error}
use buff.Clip.Meta.{Meta, normalized}
use buff.Clip.Name.{valid_name}
use buff.Buffer.{new_buffer}
use buff.Store.GenId.{allocate}
use buff.Store.Quota.{reserve_clip}
use buff.Store.Generation.{live}
use buff.Store.State.{Store, acquire}
use buff.Store.Medium.{Medium}
use buff.Store.Gate.{transition_result, wake_if, wake_locked}
use buff.Store.Resolve.{present_current}
use buff.Store.Reaper.{reclaim_expired}
use buff.Store.Create.{
  PutOpts, Writer, CreateInputs, mint, admit, matches, created, create_once, create, is_full,
}

-- A generation that is being written, and has nothing yet.
pub record IsBlank (s : Store) (g : ℕ) : Type 0 where
  pub is_live : (s.heap g).state ≡ live
  pub nothing : (s.heap g).buf.stored ≡ []

abbrev MintsBlank : Store × (ℕ ⊎ Error) × Bool → Type 0
MintsBlank (s, inl g, wake) = IsBlank s g
MintsBlank (s, inr e, wake) = Unit {0}

mint-MintsBlank :
    (k : Medium) (now : ℕ) (random : ℕ ⊎ Error) (h : ℕ) (name : Bytes) (m : Meta) (o : PutOpts)
    (s : Store)
    → MintsBlank (mint k now random h name m o s)
unfolding mint
mint-MintsBlank k now random h name m o s =
    elim (Sum-cases (allocate now random (s.handles h).last_prefix)) [
      | inr (x, f) ↦ rw (f, mint) tt
      | inl ((id, seed), f) ↦ elim (Option-cases (k.create id)) [
        | inr (x, p) ↦ rw (f, mint, p, mint) tt
        | inl p ↦
            rw (f, mint, p, mint)
              (record { is_live = ground arith; nothing = unfold new_buffer in ground arith })
      ]
    ]

admit-MintsBlank :
    (k : Medium) (now : ℕ) (random : ℕ ⊎ Error) (h : ℕ) (name : Bytes) (m : Meta) (o : PutOpts)
    (s : Store)
    → MintsBlank (admit k now random h name m o s)
unfolding admit
admit-MintsBlank k now random h name m o s =
    if_elim MintsBlank
      (not (bytes_eq o.if_match []) && not (matches s (present_current s h now) o.if_match)) _ _
      (λ e. tt)
      λ e.
        if_elim MintsBlank (is_some (s.handles h).live) _ _ (λ l. tt)
          λ l.
            if_elim MintsBlank (not (reserve_clip s.quota).1) _ _ (λ r. tt)
              λ r. mint-MintsBlank k now random h name m o _

-- A new writer, at the start of its work.
pub record IsNew (s : Store) (w : Writer) : Type 0 where
  pub not_done : w.done ≡ false
  pub blank : IsBlank s w.gen

abbrev pub CreatesNew : Store × (Writer ⊎ Error) → Type 0
CreatesNew (s, inl w) = IsNew s w
CreatesNew (s, inr e) = Unit {0}

created-CreatesNew :
    (s : Store) (h : ℕ) (r : ℕ ⊎ Error) (wake : Bool)
    → MintsBlank (s, r, wake)
    → CreatesNew (created (wake_if wake s h) h r)
unfolding wake_locked
created-CreatesNew s h (inr e) wake v = tt
created-CreatesNew s h (inl g) true v = record {
  not_done = refl;
  blank = record { is_live = v.is_live; nothing = v.nothing };
}
created-CreatesNew s h (inl g) false v = record { not_done = refl; blank = v }

create_once-CreatesNew :
    (k : Medium) (now : ℕ) (random : ℕ ⊎ Error) (name : Bytes) (m : Meta) (o : PutOpts) (s : Store)
    → CreatesNew (create_once k now random name m o s)
unfolding create_once transition_result
create_once-CreatesNew k now random name m o s = elim (Option-cases (valid_name name)) [
  | inr (e, b) ↦ rw (b, create_once) tt
  | inl b ↦
      let (t, h) = acquire s name in
      rw (b, create_once)
        (created-CreatesNew _ h _ _ (admit-MintsBlank k now random h name (normalized m) o t))
]

-- A full store gave no writer.
full-CreatesNew : (t : Store) (r : Writer ⊎ Error) → is_full r ≡ true → CreatesNew (t, r)
full-CreatesNew t (inl w) f = cc
full-CreatesNew t (inr e) f = tt

pub create-CreatesNew :
    (k : Medium) (i : CreateInputs) (name : Bytes) (m : Meta) (o : PutOpts) (s : Store)
    → CreatesNew (create k i name m o s)
unfolding create
create-CreatesNew k i name m o s =
    let (t, r) = create_once k i.now i.random name m o s in
    let (u, freed) = reclaim_expired k t i.sweep_now in
    if_elim CreatesNew (is_full r) _ _
      (λ f.
        if_elim CreatesNew freed _ _
          (λ g. create_once-CreatesNew k i.retry_now i.retry_random name m o u)
          (λ g. full-CreatesNew u r f))
      λ f. create_once-CreatesNew k i.now i.random name m o s

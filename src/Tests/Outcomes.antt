-- ===== src/Tests/Outcomes.antt =====
-- What one call leaves, on the store of Tests.Stores.
use buff.Common.{◌↔◌, ℕ, ◌≡◌, refl, ◌⊎◌, none, some, inl, inr, arith, Bytes, [], ◌∷◌, bytes_eq}
use mathlib.Core.List.{Memᴰ}
use buff.Clip.Errors.{Error, not_found}
use buff.Clip.Name.{valid_name}
use buff.Buffer.{memory_backing, sync}
use buff.Store.State.{Store, acquire}
use buff.Store.Medium.{memory_medium}
use buff.Store.Create.{create, admit, mint}
use buff.Store.Writer.{write, close, stamp, finalize_error}
use buff.Store.Manage.{delete, list, stat, shown}
use buff.Store.Generation.{clip_of}
use buff.Store.Resolve.{resolve_read}
use buff.Store.Outcomes.Showing.{stat_outcome}
use buff.Store.Outcomes.Listing.{IsShown, list_iff}
use buff.Store.Outcomes.Closing.{IsPublished, IsDiscarded, Fails, close_outcome}
use buff.Store.Outcomes.Writing.{Appends, write-Appends}
use buff.Store.Outcomes.Admission.{IsAdmitted, IsRefused, admit_outcome}
use buff.Store.Outcomes.Removal.{IsDeleted, IsUntouched, IsFaithful, delete_outcome}
use buff.Store.State.{new_store, snapshot, find_handle}
use buff.Tests.Stores.{config, name, plain, secret_opts, with_live, the_writer, with_value}

close_outcome_example :
    let t = stamp with_live 0 7 in
    let r = close memory_medium memory_backing with_live the_writer 7 in
    ((sync memory_backing (t.heap 0).buf ≡ none)
      × ((memory_medium.finalize (t.heap 0)).1 ≡ none)
      × (r.2 ≡ none)
      × IsPublished with_live r.0 the_writer)
    ⊎ ((e : Error) × Fails
          (sync memory_backing (t.heap 0).buf)
          (memory_medium.finalize (t.heap 0)).1
          e
        × (r.2 ≡ some (finalize_error (with_live.heap 0).name e))
        × IsDiscarded with_live r.0 the_writer)
close_outcome_example = close_outcome memory_medium memory_backing with_live the_writer 7 refl

abbrev empty : Store
empty = new_store config

admit_outcome_example :
    let r = admit memory_medium 5 (inl 9) 0 name plain secret_opts empty in
    ((g : ℕ) × (r.1 ≡ inl g) × IsAdmitted empty r.0 0 g 5 plain secret_opts)
    ⊎ ((e : Error) × (r.1 ≡ inr e) × IsRefused empty r.0)
admit_outcome_example =
    admit_outcome memory_medium 5 (inl 9) 0 name plain secret_opts empty
      (unfold new_store in omega arith)

memory-IsFaithful : IsFaithful memory_medium
memory-IsFaithful = record { unpublish_fails = λ g h. cc }

name_valid : valid_name name ≡ none
unfolding valid_name
name_valid = refl

delete_outcome_example :
    let s = (acquire with_value name).0 in
    let h = (acquire with_value name).1 in
    let r = delete memory_medium name 9 with_value in
    ((g : ℕ) × IsDeleted s r.0 h g 9) ⊎ ((e : Error) × (r.1 ≡ some e) × IsUntouched s r.0)
delete_outcome_example = delete_outcome memory_medium name 9 with_value memory-IsFaithful name_valid

abbrev chunk : Bytes
chunk = b'h' ∷ b'i' ∷ []

write-Appends_example :
    let r = write memory_medium memory_backing with_live the_writer chunk 6 in
    Appends (with_live.heap 0).buf (r.0.heap 0).buf chunk r.2
unfolding create new_store bytes_eq mint
write-Appends_example =
    write-Appends memory_medium memory_backing with_live the_writer chunk 6 (λ p. omega arith) refl

list_iff_example :
    Memᴰ (clip_of (with_value.heap 0)) (list with_value 8)
    ↔ IsShown with_value 8 (snapshot with_value) (clip_of (with_value.heap 0))
list_iff_example = list_iff with_value 8 (clip_of (with_value.heap 0))

stat_outcome_example :
    let r = stat name 8 with_value in
    (r.0.heap ≡ with_value.heap)
    × (((h : ℕ) × (find_handle name with_value.table ≡ some h)
          × (r.1 ≡ shown with_value (resolve_read with_value h 8)))
        ⊎ ((find_handle name with_value.table ≡ none) × (r.1 ≡ inr not_found)))
stat_outcome_example = stat_outcome name 8 with_value name_valid

-- ===== src/Tests/Queues.antt =====
-- Runs of the theorems on the queues in annotations.
use azurerator.Base.{◌≤◌, ◌≡◌, refl, true, some, none, List, [], ◌∷◌, string_eq, arith, length}
use azurerator.Base.Dict.{lookup, insert, erase}
use azurerator.Base.Exec.{ok}
use azurerator.Base.Text.{is_comma, nat_eq, split, join}
use azurerator.Crd.{AzureAdApplication}
use azurerator.Annotations.{
  Annotations, has_annotation, remove_from_annotation, without_first, resynchronize_key,
}
use azurerator.Annotations.Laws.{entries, dequeue}
use azurerator.Annotations.Queue.{
  Operation, add_entry, take_first, clear, WritesEntries, perform_all, specified_all,
  entries-perform_all,
}
use azurerator.Options.{has_resynchronize_annotation}
use azurerator.Controller.{copy, copy_onto, without_processed}
use azurerator.Controller.Processed.{IsMap, first_of, entries-copy}
use azurerator.Controller.Drained.{rounds, rounds_drain}
use azurerator.Tests.Controller.{app}

abbrev operations : List Operation
operations =
    add_entry "k" "x" ∷ add_entry "k" "y" ∷ add_entry "k" "y" ∷ take_first "k" ∷ clear "j" ∷ []

operations_write : WritesEntries operations
unfolding is_comma nat_eq
operations_write = ((refl, tt), ((refl, tt), ((refl, tt), tt)))

entries-perform_all_example :
    entries (perform_all operations none) "k" ≡ specified_all operations (entries none) "k"
entries-perform_all_example = entries-perform_all operations none "k" operations_write

-- The reconciler read two requests, and one was added meanwhile.
abbrev requested : AzureAdApplication
requested = record app { annotations = some ((resynchronize_key, "x,z") ∷ []) }

abbrev meanwhile : Annotations
meanwhile = some ((resynchronize_key, "x,z,y") ∷ [])

one_key : IsMap requested.annotations
unfolding lookup
one_key = (refl, tt)

is_requested : has_resynchronize_annotation requested ≡ true
unfolding has_resynchronize_annotation has_annotation lookup string_eq
is_requested = refl

abbrev merged : Annotations
merged = some ((resynchronize_key, "z") ∷ [])

copied :
    copy (without_processed requested meanwhile) (without_processed requested requested.annotations)
    ≡ ok merged
unfolding copy copy_onto without_processed has_resynchronize_annotation has_annotation lookup insert
    erase string_eq remove_from_annotation without_first split join is_comma nat_eq
copied = refl

entries-copy_example :
    entries merged resynchronize_key
    ≡ first_of
        (dequeue (entries requested.annotations resynchronize_key))
        (dequeue (entries meanwhile resynchronize_key))
entries-copy_example = entries-copy requested meanwhile merged one_key is_requested copied

two_requests : length (entries requested.annotations resynchronize_key) ≤ 2
unfolding has_annotation lookup string_eq split is_comma nat_eq
two_requests = omega arith

rounds_drain_example :
    (b : Annotations) × ((rounds app 2 requested.annotations ≡ ok b)
      × (has_annotation b resynchronize_key ≡ none))
rounds_drain_example = rounds_drain app 2 requested.annotations one_key two_requests

-- ===== src/Store/Scan/ByName.antt =====
-- store/recovery.go (`scan`): the candidates by the name in their records. The map is a list of its
-- entries, each a name with its slice, which is never empty, as the first element and the rest.
use buff.Common.{List, [], ◌∷◌, ◌++◌, Bytes, bytes_eq, if◌then◌else◌}
use buff.Store.GenId.{is_after}
use buff.Store.Scan.Classify.{Candidate}

abbrev pub Groups : Type 0
Groups = List (Bytes × Candidate × List Candidate)

-- `byName[c.mf.Name] = append(byName[c.mf.Name], c)`
unfoldable pub add_to_group : Candidate → Groups → Groups
unfolding bytes_eq
add_to_group c [] = (c.mf.name, c, []) ∷ []
add_to_group c ((name, first, rest) ∷ groups) =
    let groups' = add_to_group c groups in
    if bytes_eq name c.mf.name
    then (name, first, rest ++ c ∷ []) ∷ groups
    else (name, first, rest) ∷ groups'

unfoldable pub newest : Candidate → List Candidate → Candidate
unfolding is_after
newest kept [] = kept
newest kept (c ∷ cands) = newest (if is_after c.id kept.id then c else kept) cands

-- ===== src/Delivery/Adopt.antt =====
-- RedisBatchStore.adopt_legacy_streams (apps/listener/batch_delivery.py): the older streams' entries
-- move to the venue's. A stream that does not exist is none. The pages of the source take the
-- entries from the front, as the recursion does one by one.
use brand_sniper_monorepo.Prelude.{
  ℕ, suc, ◌≡◌, refl, sym, ◌∙◌, ap, String, List, [], ◌∷◌, ◌++◌, Option, none, some, map, length,
}
use mathlib.Core.List.{append-nil}
use brand_sniper_monorepo.Prelude.Dict.{Dict}
use brand_sniper_monorepo.Delivery.Streams.{Entry, xadd}

pub record Adoption : Type 0 where
  pub next_id : ℕ
  pub legacy : Option (List Entry)
  pub own : Option (List Entry)
  pub moved : ℕ

-- XADD to the venue's stream and XDEL from the older one, entry after entry.
unfoldable pub move_entries : ℕ → List Entry → List Entry → ℕ × List Entry
move_entries next_id [] own = (next_id, own)
move_entries next_id (e ∷ es) own = move_entries (suc next_id) es (xadd next_id e.fields own)

-- One pair of streams: nothing to move, a rename, or a merge that deletes the emptied stream.
unfoldable pub adopt_stream : ℕ → Option (List Entry) → Option (List Entry) → Adoption
adopt_stream next_id none own = record { next_id = next_id; legacy = none; own = own; moved = 0 }
adopt_stream next_id (some entries) none = record {
  next_id = next_id;
  legacy = none;
  own = some entries;
  moved = length entries;
}
adopt_stream next_id (some entries) (some own) = record {
  next_id = (move_entries next_id entries own).0;
  legacy = none;
  own = some (move_entries next_id entries own).1;
  moved = length entries;
}

abbrev pub entries_of : Option (List Entry) → List Entry
entries_of none = []
entries_of (some entries) = entries

abbrev pub fields_of : Entry → Dict String String
fields_of e = e.fields

fields-xadd :
    (id : ℕ) (fields : Dict String String) (own : List Entry) (rest : List (Dict String String))
    → map fields_of (xadd id fields own) ++ rest ≡ map fields_of own ++ fields ∷ rest
fields-xadd id fields [] rest = refl
fields-xadd id fields (e ∷ es) rest = ap (◌∷◌ e.fields) (fields-xadd id fields es rest)

fields-move_entries :
    (next_id : ℕ) (entries own : List Entry)
    → map fields_of (move_entries next_id entries own).1
      ≡ map fields_of own ++ map fields_of entries
unfolding move_entries
fields-move_entries next_id [] own = sym (append-nil _)
fields-move_entries next_id (e ∷ es) own =
    fields-move_entries (suc next_id) es (xadd next_id e.fields own)
    ∙ fields-xadd next_id e.fields own (map fields_of es)

-- Adopting a stream loses and changes no entry's fields: the venue's stream then holds its own
-- entries and after them the older stream's, in their order; that stream is gone, and the count is how
-- many entries it had.
pub adopt_stream_lem :
    (next_id : ℕ) (legacy own : Option (List Entry))
    → let after = adopt_stream next_id legacy own in
      (map fields_of (entries_of after.own)
        ≡ map fields_of (entries_of own) ++ map fields_of (entries_of legacy))
      × (after.legacy ≡ none)
      × (after.moved ≡ length (entries_of legacy))
unfolding adopt_stream
adopt_stream_lem next_id none own = (sym (append-nil _), refl, refl)
adopt_stream_lem next_id (some entries) none = (refl, refl, refl)
adopt_stream_lem next_id (some entries) (some own) =
    (fields-move_entries next_id entries own, refl, refl)

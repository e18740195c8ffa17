-- ===== src/Mcp/Relate/Tests.antt =====
-- Edges of one thought in both directions, one of them deleted, the filters, and a preview that ends before a character.
use k_engram.Prelude.{
  ℕ, ◌+◌, ◌≤◌, ◌<◌, true, false, List, [], ◌∷◌, ◌++◌, none, some, ◌≡◌, refl, ◌⊎◌, ltb, ok, err,
}
use k_engram.Text.{Text, codes, elem, text_eq, byte_len, len_utf8}
use k_engram.Sorting.{sort}
use k_engram.Core.Label.{new_scope}
use k_engram.Core.Relation.{
  ThoughtId, thought, refines, requires, agent, as_str, from_str, source_from_str, both,
}
use k_engram.Core.Relation.Columns.{link_target_from_row}
use k_engram.Storage.Links.{
  LinkRow, ThoughtRow, find_thought_row, is_outbound, is_inbound, decode_outbound, decode_inbound,
  decode_all, outbound_targets, inbound_targets, fetch_related_thoughts,
}
use k_engram.Mcp.Relate.{
  related_content_preview_len, GetRelatedThoughtsRequest, GetRelatedThoughtsResponse,
  is_char_boundary, back_to_boundary, preview_of, hit_of, group_rows, is_target_kind, unknown_kind,
  unknown_target_kind, get_related_thoughts,
}
use k_engram.Mcp.Relate.Preview.{preview_of_lem}
use k_engram.Mcp.Relate.Grouped.{Answers, get_related_thoughts_ok}

abbrev id_of : ℕ → ThoughtId
id_of n = record { uuid = n }

abbrev row : ℕ → ThoughtRow
row n = record {
  thought_id = n;
  scope = codes "work";
  content = codes "note";
  thought_created_at = n;
  retracted_at = none;
}

abbrev links : List LinkRow
links =
    record {
      link_id = 10;
      from_thought = 1;
      relation = codes "refines";
      to_kind = codes "thought";
      to_thought = some (id_of 2);
      to_entity = none;
      to_person = none;
      to_url = none;
      created_at = 5;
      link_source = codes "agent";
      note = none;
      deleted_at = none;
    }
    ∷ record {
      link_id = 11;
      from_thought = 2;
      relation = codes "requires";
      to_kind = codes "thought";
      to_thought = some (id_of 1);
      to_entity = none;
      to_person = none;
      to_url = none;
      created_at = 6;
      link_source = codes "agent";
      note = none;
      deleted_at = none;
    }
    ∷ record {
      link_id = 12;
      from_thought = 1;
      relation = codes "refines";
      to_kind = codes "thought";
      to_thought = some (id_of 2);
      to_entity = none;
      to_person = none;
      to_url = none;
      created_at = 4;
      link_source = codes "agent";
      note = none;
      deleted_at = some 7;
    }
    ∷ []

abbrev thoughts : List ThoughtRow
thoughts = row 1 ∷ row 2 ∷ []

abbrev request : GetRelatedThoughtsRequest
request = record {
  asked_id = id_of 1;
  relations = none;
  target_kinds = none;
  asked_direction = both;
}

abbrev response : GetRelatedThoughtsResponse
response = record {
  thought_id = id_of 1;
  outbound_hits =
      record {
        hit_link = 10;
        hit_relation = refines;
        hit_target = thought (id_of 2);
        hit_scope = some (record { text = codes "work" });
        content_preview = some (codes "note");
        content_truncated = some false;
        hit_thought_created_at = some 2;
        hit_link_created_at = 5;
        hit_source = agent;
        hit_note = none;
        hit_retracted = some false;
      }
      ∷ [];
  inbound_hits =
      record {
        hit_link = 11;
        hit_relation = requires;
        hit_target = thought (id_of 2);
        hit_scope = some (record { text = codes "work" });
        content_preview = some (codes "note");
        content_truncated = some false;
        hit_thought_created_at = some 2;
        hit_link_created_at = 6;
        hit_source = agent;
        hit_note = none;
        hit_retracted = some false;
      }
      ∷ [];
}

related_both : get_related_thoughts links thoughts true (true, true) request ≡ some (ok response)
unfolding get_related_thoughts find_thought_row fetch_related_thoughts outbound_targets
    inbound_targets is_outbound is_inbound decode_all decode_outbound decode_inbound
    link_target_from_row from_str source_from_str new_scope byte_len len_utf8 sort group_rows hit_of
    preview_of text_eq
related_both = refl

-- A filter of relations applies to both directions.
related_refining :
    get_related_thoughts links thoughts true
      (true, true)
      (record request { relations = some (refines ∷ []) })
    ≡ some (ok (record response { inbound_hits = [] }))
unfolding get_related_thoughts find_thought_row fetch_related_thoughts outbound_targets
    inbound_targets is_outbound is_inbound decode_all decode_outbound decode_inbound
    link_target_from_row as_str from_str source_from_str new_scope byte_len len_utf8 sort group_rows
    hit_of preview_of text_eq elem
related_refining = refl

-- A filter of kinds without the kind of a thought also leaves the inbound edges out.
related_entities :
    get_related_thoughts links thoughts true
      (true, true)
      (record request { target_kinds = some (codes "entity" ∷ []) })
    ≡ some (ok (record response { outbound_hits = []; inbound_hits = [] }))
unfolding get_related_thoughts find_thought_row fetch_related_thoughts outbound_targets
    inbound_targets is_outbound is_inbound decode_all decode_outbound decode_inbound
    link_target_from_row unknown_kind is_target_kind elem from_str source_from_str new_scope
    byte_len len_utf8 sort group_rows hit_of preview_of text_eq
related_entities = refl

related_unknown :
    get_related_thoughts links thoughts true
      (true, true)
      (record request { target_kinds = some (codes "place" ∷ []) })
    ≡ some (err (unknown_target_kind (codes "place")))
unfolding get_related_thoughts find_thought_row unknown_kind is_target_kind text_eq
related_unknown = refl

-- The sign of the euro has three bytes, so byte 4 is inside it.
boundary_before : back_to_boundary (codes "abc" ++ (0x20ac ∷ [])) 4 ≡ 3
unfolding back_to_boundary is_char_boundary len_utf8
boundary_before = refl

preview_of_lem_example :
    (front : Text) × (back : Text) × (preview_of (some (codes "note"))
      ≡ some (some front, some (ltb related_content_preview_len (byte_len (codes "note")))))
    × (codes "note" ≡ front ++ back)
    × (byte_len front ≤ related_content_preview_len)
    × (((byte_len (codes "note") ≤ related_content_preview_len) × (back ≡ []))
        ⊎ ((related_content_preview_len < byte_len (codes "note"))
            × (related_content_preview_len ≤ byte_len front + 3)))
preview_of_lem_example = preview_of_lem (codes "note")

get_related_thoughts_ok_example : Answers links thoughts request response
get_related_thoughts_ok_example =
    get_related_thoughts_ok links thoughts (true, true) request response related_both

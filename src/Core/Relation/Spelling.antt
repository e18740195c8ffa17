-- ===== src/Core/Relation/Spelling.antt =====
-- The words of the closed vocabularies: printing and reading invert each other.
use k_engram.Prelude.{◌≡◌, refl, ◌↔◌, arith, ok}
use k_engram.Text.{Text, text_eq, codes}
use k_engram.Text.Laws.{text_eq_iff}
use k_engram.Core.Relation.{
  RelationKind, replaces, requires, references, supports, belongs_to, decided_by, refines, as_str,
  from_str, LinkSource, agent, tagger, source_as_str, source_from_str, LinkDirection, outbound,
  inbound, both, direction_as_str, direction_from_str,
}

from_str-as_str : (k : RelationKind) → from_str (as_str k) ≡ ok k
unfolding from_str as_str text_eq
from_str-as_str replaces = refl
from_str-as_str requires = refl
from_str-as_str references = refl
from_str-as_str supports = refl
from_str-as_str belongs_to = refl
from_str-as_str decided_by = refl
from_str-as_str refines = refl

as_str_of_from_str : (s : Text) (k : RelationKind) → from_str s ≡ ok k → s ≡ as_str k
unfolding from_str as_str
as_str_of_from_str s k h = ground (
  arith,
  text_eq_iff s (codes "replaces"),
  text_eq_iff s (codes "requires"),
  text_eq_iff s (codes "references"),
  text_eq_iff s (codes "supports"),
  text_eq_iff s (codes "belongs_to"),
  text_eq_iff s (codes "decided_by"),
  text_eq_iff s (codes "refines"),
)

-- A word is read as a relation kind exactly when it is that kind's word.
pub from_str_iff : (s : Text) (k : RelationKind) → (from_str s ≡ ok k) ↔ (s ≡ as_str k)
from_str_iff s k = (as_str_of_from_str s k, λ e. rw e (from_str-as_str k))

-- So for the sources of an edge.
pub source_from_str_iff :
    (s : Text) (k : LinkSource) → (source_from_str s ≡ ok k) ↔ (s ≡ source_as_str k)
unfolding source_from_str source_as_str
source_from_str_iff s agent =
    ground (arith, text_eq_iff s (codes "agent"), text_eq_iff s (codes "tagger"))
source_from_str_iff s tagger =
    ground (arith, text_eq_iff s (codes "agent"), text_eq_iff s (codes "tagger"))

-- And for the directions of a traversal.
pub direction_from_str_iff :
    (s : Text) (d : LinkDirection) → (direction_from_str s ≡ ok d) ↔ (s ≡ direction_as_str d)
unfolding direction_from_str direction_as_str
direction_from_str_iff s outbound = ground (
  arith,
  text_eq_iff s (codes "outbound"),
  text_eq_iff s (codes "inbound"),
  text_eq_iff s (codes "both"),
)
direction_from_str_iff s inbound = ground (
  arith,
  text_eq_iff s (codes "outbound"),
  text_eq_iff s (codes "inbound"),
  text_eq_iff s (codes "both"),
)
direction_from_str_iff s both = ground (
  arith,
  text_eq_iff s (codes "outbound"),
  text_eq_iff s (codes "inbound"),
  text_eq_iff s (codes "both"),
)

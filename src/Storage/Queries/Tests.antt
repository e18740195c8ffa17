-- ===== src/Storage/Queries/Tests.antt =====
-- The quoting of a value with quotes in it.
use k_engram.Prelude.{some, ◌≡◌, ◌∷◌, ◌++◌, arith}
use k_engram.Text.{Text, codes}
use k_engram.Storage.Queries.{sql_literal, sql_identifier}
use k_engram.Storage.Queries.Quoting.{read_quoted, sql_quoting_lem}

sql_quoting_lem_example :
    ((body : Text) × (sql_literal (codes "it's") ++ codes " OR" ≡ b'\'' ∷ body)
      × (read_quoted b'\'' body ≡ some (codes "it's", codes " OR")))
    × ((body : Text) × (sql_identifier (codes "it's") ++ codes " OR" ≡ b'"' ∷ body)
        × (read_quoted b'"' body ≡ some (codes "it's", codes " OR")))
sql_quoting_lem_example =
    sql_quoting_lem (codes "it's") (codes " OR") (λ e. ground arith) (λ e. ground arith)

-- ===== src/Connection/Transaction/Marks.antt =====
-- Objects of the server that are marked to be discarded: `CC_mark_a_object_to_discard`.
use open_gauss_connector_odb.Base.{ℕ, Bool, true, false, List, [], ◌∷◌, ◌++◌, if◌then◌else◌}
use open_gauss_connector_odb.Connection.Transaction.{Name, Conn}

-- `CC_mark_a_object_to_discard`, where memory is given or not: the connection, and whether the result
-- is 1. The error record is left out, and the number of objects stays below the range of `Int2`.
unfoldable pub cc_mark_a_object_to_discard : Conn → ℕ → Name → Bool → Conn × Bool
cc_mark_a_object_to_discard conn type plan memory =
    if memory
    then (record conn { discardp = conn.discardp ++ (type, plan) ∷ [] }, true)
    else (conn, false)

-- ===== src/Fed/Spool.antt =====
-- qnm/fedmesh/relay.py: the spool of a relay. Envelopes are kept as JSON text with their id
-- (`envelope_id`) and recipient; `str.isalnum` is that of ASCII. The clock is in seconds.
use qnm_node.Base.{
  ℕ, ◌+◌, Bool, ◌&&◌, ◌||◌, not, Option, none, some, List, [], ◌∷◌, ◌++◌, map, ltb, leb, ◌==◌,
  list_eq, nat_eq, Text, length, ok, refuse, Act, is_empty, if◌then◌else◌, Dict, get, put, contains,
  any, keep,
}
use qnm_node.Base.{fed_tamper, fed_replay, fed_quota}
use qnm_node.Bytes.{utf8}

pub record Envelope : Type 0 where
  pub to : Text
  pub id : Text
  pub json : Text

pub record Row : Type 0 where
  pub id : Text
  pub bytes : ℕ
  pub expires : ℕ
  pub envelope : Envelope

pub record Spool : Type 0 where
  pub quota_bytes : ℕ
  pub ttl : ℕ
  pub files : Dict Text (List Row)

unfoldable pub is_alnum : ℕ → Bool
is_alnum c = leb b'0' c && leb c b'9' || leb b'a' c && leb c b'z' || leb b'A' c && leb c b'Z'

-- `_path(handle)`: the name of the file
unfoldable pub path : Text → Text
unfolding is_alnum
path handle = keep is_alnum handle

abbrev pub or_empty : Option (List Row) → List Row
or_empty none = []
or_empty (some rows) = rows

abbrev pub is_live : ℕ → Row → Bool
is_live now row = ltb now row.expires

-- `_read(handle, now)`
unfoldable pub read : Text → ℕ → Spool → List Row
unfolding path
read handle now s = keep (is_live now) (or_empty (get s.files (path handle)))

-- `_write(handle, rows)`
unfoldable pub write : Text → List Row → Spool → Spool
unfolding path
write handle rows s = record s { files = put s.files (path handle) rows }

-- `sum(row["bytes"] for row in rows)`
unfoldable pub total : List Row → ℕ
total [] = 0
total (row ∷ rows) = row.bytes + total rows

-- `bytes_for(handle)`
unfoldable pub bytes_for : Text → ℕ → Spool → ℕ
unfolding read total
bytes_for handle now s = total (read handle now s)

abbrev pub has_id : Text → Row → Bool
has_id id row = row.id == id

unfoldable pub row_of : Envelope → ℕ → Spool → Row
row_of e now s = record {
  id = e.id;
  bytes = length (utf8 e.json);
  expires = now + s.ttl;
  envelope = e;
}

-- `put(envelope, now)`
unfoldable pub post : Envelope → ℕ → Act Spool Text
unfolding read write total row_of
post e now s =
    let rows = read e.to now s in
    let row = row_of e now s in
    if is_empty e.to
    then (refuse fed_tamper, s)
    else if any (has_id e.id) rows
    then (refuse fed_replay, s)
    else if ltb s.quota_bytes (total rows + row.bytes)
    then (refuse fed_quota, s)
    else (ok e.id, write e.to (rows ++ row ∷ []) s)

-- `poll(handle, now)`
unfoldable pub poll : Text → ℕ → Act Spool (List Envelope)
unfolding read write
poll handle now s =
    (ok (map (λ row. row.envelope) (read handle now s)), write handle (read handle now s) s)

-- `ack(handle, ids)`, at a moment
unfoldable pub ack : Text → List Text → ℕ → Act Spool ℕ
unfolding read write
ack handle ids now s =
    let rows = keep (λ row. not (contains ids row.id)) (read handle now s) in
    (ok (length rows), write handle rows s)

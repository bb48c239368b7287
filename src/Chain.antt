-- ===== src/Chain.antt =====
-- qnm/chain.py: the append-only local chain. `file` holds the rows that were written to the JSONL file,
-- in order; its text is what `dumps` makes of each, with a newline after it. `links` is the list in
-- memory. The body of a link is a JSON object that the chain never looks into;
-- its type and `_canonical` (json.dumps with sorted keys) are parameters.
pub mod Seal
pub mod Tamper
use qnm_node.Base.{
  ℕ, suc, ◌+◌, ◌≡◌, refl, Bool, true, false, ◌||◌, List, [], ◌∷◌, ◌++◌, ◌==◌, list_eq, nat_eq, Text,
  codes, length, Result, ok, refuse, Code, apg_poison, no_rewrite, no_rewrite_key, Act, is_empty,
  if◌then◌else◌, Option, none, some, leb, nat_beq, ◌&&◌, strip,
}
use qnm_node.Digest.{Hash}

abbrev pub genesis_prev : Text
genesis_prev = codes "0000000000000000000000000000000000000000000000000000000000000000"

abbrev pub spec : Text
spec = codes "QNM-BUILD-1.0"

abbrev pub author : Text
author = codes "Aziel Eliab"

-- The object that is hashed.
pub record Core (Body : Type 0) : Type 0 where
  pub author : Text
  pub body : Body
  pub kind : Text
  pub prev : Text
  pub seq : ℕ
  pub spec : Text
  pub utc : Text

pub record Link (Body : Type 0) : Type 0 where
  pub seq : ℕ
  pub kind : Text
  pub body : Body
  pub prev : Text
  pub hash : Text
  pub utc : Text
  pub spec : Text
  pub author : Text

pub record Chain (Body : Type 0) : Type 0 where
  pub file : List (Link Body)
  pub links : List (Link Body)

-- An error of `verify`, with the index that its text names.
pub data Fault : Type 0 where
  hash_mismatch broken_prev : ℕ → Fault

unfoldable pub none_left : List Fault → Bool
none_left [] = true
none_left (e ∷ es) = false

pub record Report : Type 0 where
  pub fine : Bool
  pub length : ℕ
  pub tip : Text
  pub errors : List Fault

abbrev pub empty_chain : {Body : Type 0} → Chain Body
empty_chain = record { file = []; links = [] }

-- The symbols that `append` refuses as a kind.
unfoldable pub is_forbidden_kind : Text → Bool
is_forbidden_kind kind =
    kind == codes "lattice_online"
    || kind == codes "mesh_complete"
    || kind == codes "Lumen"
    || kind == codes "Mandible"

-- Where `str.splitlines` ends a line. A carriage return and the newline after it are two boundaries
-- here, with an empty line between them, which `_load` skips.
unfoldable pub is_boundary : ℕ → Bool
is_boundary c =
    leb 10 c && leb c 13
    || leb 28 c && leb c 30
    || nat_beq c 133
    || nat_beq c 8232
    || nat_beq c 8233

abbrev onto : ℕ → List Text → List Text
onto c [] = (c ∷ []) ∷ []
onto c (line ∷ lines) = (c ∷ line) ∷ lines

-- `text.splitlines()`
unfoldable pub split_lines : Text → List Text
unfolding is_boundary
split_lines [] = []
split_lines (c ∷ text) =
    let rest = split_lines text in if is_boundary c then [] ∷ rest else onto c rest

abbrev front : {A : Type 0} → A → Option (List A) → Option (List A)
front x none = none
front x (some xs) = some (x ∷ xs)

-- `json.dumps` of a row, and `json.loads` of a line with the conversions of `_load`, none where they
-- raise.
module _ {Body : Type 0} (dumps : Link Body → Text) (loads : Text → Option (Link Body)) where
  -- The text of the file.
  unfoldable pub written : List (Link Body) → Text
  written [] = []
  written (l ∷ ls) = dumps l ++ 10 ∷ written ls

  -- The loop of `_load`
  unfoldable pub parse_lines : List Text → Option (List (Link Body))
  parse_lines [] = some []
  parse_lines (line ∷ lines) =
      let rest = parse_lines lines in
      if is_empty (strip line)
      then rest
      else elim (loads line) [ none ↦ none | some l ↦ front l rest ]

  -- `_load()`, of a chain that is opened on the file; none where a line does not parse
  unfoldable pub load : List (Link Body) → Option (Chain Body)
  unfolding written parse_lines split_lines
  load file = elim (parse_lines (split_lines (written file))) [
    | none ↦ none
    | some links ↦ some (record { file = file; links = links })
  ]

module _ {Body : Type 0} where
  -- `self._links[-1].hash if self._links else GENESIS_PREV`, from any default
  unfoldable pub tip_from : Text → List (Link Body) → Text
  tip_from prev [] = prev
  tip_from prev (l ∷ ls) = tip_from l.hash ls

  unfoldable pub tip : Chain Body → Text
  unfolding tip_from
  tip c = tip_from genesis_prev c.links

  unfoldable pub core_of : Link Body → Core Body
  core_of l = record {
    author = l.author;
    body = l.body;
    kind = l.kind;
    prev = l.prev;
    seq = l.seq;
    spec = l.spec;
    utc = l.utc;
  }

  unfoldable pub rewrite : Act (Chain Body) Unit
  rewrite c = (refuse no_rewrite, c)

  unfoldable pub mutate : Act (Chain Body) Unit
  mutate c = (refuse no_rewrite, c)

  unfoldable pub rewrite_key : Act (Chain Body) Unit
  rewrite_key c = (refuse no_rewrite_key, c)

module _ {Body : Type 0} (h : Hash) (canonical : Core Body → Text) where
  open h use {sha256_hex}

  -- The link that `append` makes on top of these links.
  pub make_link : List (Link Body) → Text → Body → Text → Link Body
  make_link links kind body utc =
      let core : Core Body = record {
        author = author;
        body = body;
        kind = kind;
        prev = tip_from genesis_prev links;
        seq = length links + 1;
        spec = spec;
        utc = utc;
      } in
      record {
        seq = core.seq;
        kind = kind;
        body = body;
        prev = core.prev;
        hash = sha256_hex (canonical core);
        utc = utc;
        spec = spec;
        author = author;
      }

  -- `append(kind, body)`; `utc` is the clock's reading.
  unfoldable pub append : Text → Body → Text → Act (Chain Body) (Link Body)
  unfolding make_link is_forbidden_kind
  append kind body utc c =
      if is_forbidden_kind kind
      then (refuse apg_poison, c)
      else let link = make_link c.links kind body utc in
        (ok link, record c { file = c.file ++ link ∷ []; links = c.links ++ link ∷ [] })

  -- The tests of one round of `verify`'s loop.
  unfoldable pub faults_at : ℕ → Text → Link Body → List Fault
  faults_at i prev l =
      (if l.hash == sha256_hex (canonical (core_of l)) then [] else hash_mismatch i ∷ [])
      ++ (if l.prev == prev then [] else broken_prev i ∷ [])

  unfoldable pub verify_from : ℕ → Text → List (Link Body) → List Fault
  unfolding faults_at
  verify_from i prev [] = []
  verify_from i prev (l ∷ ls) = faults_at i prev l ++ verify_from (i + 1) l.hash ls

  unfoldable pub verify : Chain Body → Report
  unfolding verify_from tip
  verify c =
      let errors = verify_from 0 genesis_prev c.links in
      record { fine = none_left errors; length = length c.links; tip = tip c; errors = errors }

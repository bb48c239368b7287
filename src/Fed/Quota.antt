-- ===== src/Fed/Quota.antt =====
-- qnm/fedmesh/relay.py: what the spool keeps over any history of calls, and that a poll gives what was posted.
use qnm_node.Base.{
  ℕ, ◌+◌, ◌≤◌, ◌<◌, ◌≡◌, refl, inl, inr, Bool, true, false, ◌&&◌, not, List, [], ◌∷◌, ◌++◌, map,
  arith, ltb, ◌==◌, list_eq, nat_eq, list_beq_iff, list_beq_refl, Text, Bool-cases, Result, ok,
  refuse, is_empty, get, get-put, get-put_self, contains, any, keep,
}
use qnm_node.Base.{any-append, any-of-keep}
use qnm_node.Fed.Spool.{
  Envelope, Row, Spool, path, or_empty, is_live, read, write, total, has_id, row_of, post, poll,
  ack,
}

-- The calls that write.
pub data Call : Type 0 where
  do_post : Envelope → ℕ → Call
  do_poll : Text → ℕ → Call
  do_ack : Text → List Text → ℕ → Call

unfoldable pub run : Call → Spool → Spool
unfolding post poll ack
run (do_post e now) s = (post e now s).1
run (do_poll handle now) s = (poll handle now s).1
run (do_ack handle ids now) s = (ack handle ids now s).1

unfoldable pub run_all : List Call → Spool → Spool
unfolding run
run_all [] s = s
run_all (call ∷ calls) s = run_all calls (run call s)

-- The ids of rows are all different.
unfoldable pub distinct : List Row → Bool
distinct [] = true
distinct (row ∷ rows) = not (any (has_id row.id) rows) && distinct rows

-- Each file is within the quota and has each id once.
pub record IsSound (s : Spool) (file : Text) : Type 0 where
  pub within : total (or_empty (get s.files file)) ≤ s.quota_bytes
  pub once : distinct (or_empty (get s.files file)) ≡ true

total-keep : (p : Row → Bool) (rows : List Row) → total (keep p rows) ≤ total rows
unfolding total keep
total-keep p [] = omega arith
total-keep p (row ∷ rows) = ground (arith, total-keep p rows)

total-append : (rows : List Row) (row : Row) → total (rows ++ row ∷ []) ≡ total rows + row.bytes
unfolding total
total-append [] row = omega arith
total-append (r ∷ rows) row = omega (arith, total-append rows row)

distinct-keep :
    (p : Row → Bool) (rows : List Row) → distinct rows ≡ true → distinct (keep p rows) ≡ true
unfolding distinct keep
distinct-keep p [] d = refl
distinct-keep p (row ∷ rows) d =
    ground (arith, distinct-keep p rows, any-of-keep (has_id row.id) p rows)

id_sym : (a b : Text) → (a == b) ≡ (b == a)
id_sym a b = ground (arith, list_beq_iff a b, list_beq_iff b a)

distinct-append :
    (rows : List Row) (row : Row)
    → distinct rows ≡ true
    → any (has_id row.id) rows ≡ false
    → distinct (rows ++ row ∷ []) ≡ true
unfolding distinct any
distinct-append [] row d a = refl
distinct-append (r ∷ rows) row d a =
    ground (
      arith,
      distinct-append rows row,
      any-append (has_id r.id) rows (row ∷ []),
      id_sym r.id row.id,
    )

-- What is written over a file keeps the spool sound if the rows are.
write-IsSound :
    (handle : Text) (rows : List Row) (s : Spool) (file : Text)
    → total rows ≤ s.quota_bytes
    → distinct rows ≡ true
    → IsSound s file
    → IsSound (write handle rows s) file
unfolding write
write-IsSound handle rows s file t d f = elim (Bool-cases (path handle == file)) [
  | inl same ↦ record {
    within = rw (get-put s.files (path handle) file rows, same) t;
    once = rw (get-put s.files (path handle) file rows, same) d;
  }
  | inr other ↦ record {
    within = rw (get-put s.files (path handle) file rows, other) f.within;
    once = rw (get-put s.files (path handle) file rows, other) f.once;
  }
]

read-total :
    (handle : Text) (now : ℕ) (s : Spool)
    → IsSound s (path handle)
    → total (read handle now s) ≤ s.quota_bytes
unfolding read
read-total handle now s f =
    omega (arith, f.within, total-keep (is_live now) (or_empty (get s.files (path handle))))

read-distinct :
    (handle : Text) (now : ℕ) (s : Spool)
    → IsSound s (path handle)
    → distinct (read handle now s) ≡ true
unfolding read
read-distinct handle now s f =
    distinct-keep (is_live now) (or_empty (get s.files (path handle))) f.once

same_id :
    (e : Envelope) (now : ℕ) (s : Spool) (rows : List Row)
    → any (has_id e.id) rows ≡ false
    → any (has_id (row_of e now s).id) rows ≡ false
unfolding row_of
same_id e now s rows new = new

post-IsSound :
    (e : Envelope) (now : ℕ) (s : Spool) (file : Text)
    → ((f : Text) → IsSound s f)
    → IsSound (post e now s).1 file
unfolding post
post-IsSound e now s file sound = elim (Bool-cases (is_empty e.to)) [
  | inl nobody ↦ rw (post, nobody) (sound file)
  | inr somebody ↦ elim (Bool-cases (any (has_id e.id) (read e.to now s))) [
    | inl known ↦ rw (post, somebody, known) (sound file)
    | inr new ↦
        elim (Bool-cases (ltb s.quota_bytes (total (read e.to now s) + (row_of e now s).bytes))) [
          | inl over ↦ rw (post, somebody, new, over) (sound file)
          | inr fits ↦
              let rows = read e.to now s in
              rw (post, somebody, new, fits)
                (write-IsSound e.to (rows ++ row_of e now s ∷ []) s file
                  (ground (arith, fits, total-append rows (row_of e now s)))
                  (distinct-append rows (row_of e now s)
                    (read-distinct e.to now s (sound (path e.to))) (same_id e now s rows new))
                  (sound file))
        ]
  ]
]

run-IsSound :
    (call : Call) (s : Spool) (file : Text) → ((f : Text) → IsSound s f) → IsSound (run call s) file
unfolding run poll ack
run-IsSound (do_post e now) s file sound = post-IsSound e now s file sound
run-IsSound (do_poll handle now) s file sound =
    write-IsSound handle (read handle now s) s file (read-total handle now s (sound (path handle)))
      (read-distinct handle now s (sound (path handle))) (sound file)
run-IsSound (do_ack handle ids now) s file sound =
    let p = λ (row : Row). not (contains ids row.id) in
    write-IsSound handle (keep p (read handle now s)) s file
      (omega
        (arith, read-total handle now s (sound (path handle)), total-keep p (read handle now s)))
      (distinct-keep p (read handle now s) (read-distinct handle now s (sound (path handle))))
      (sound file)

-- Whatever is posted, polled and acknowledged in whatever order on a spool in which each file is
-- within the quota and has each id once, each file stays so.
pub run_all-IsSound :
    (calls : List Call) (s : Spool) (file : Text)
    → ((f : Text) → IsSound s f)
    → IsSound (run_all calls s) file
unfolding run_all
run_all-IsSound [] s file sound = sound file
run_all-IsSound (call ∷ calls) s file sound =
    run_all-IsSound calls (run call s) file (λ f. run-IsSound call s f sound)

-- An envelope is among others, by its three fields.
abbrev pub holds : Envelope → List Envelope → Bool
holds e envelopes = any (λ x. x.id == e.id && x.json == e.json && x.to == e.to) envelopes

abbrev pub polled : Result (List Envelope) → List Envelope
polled (ok envelopes) = envelopes
polled (refuse code) = []

holds-append :
    (e : Envelope) (now now' : ℕ) (s : Spool) (rows : List Row)
    → now' < now + s.ttl
    → holds e (map (λ row. row.envelope) (keep (is_live now') (rows ++ row_of e now s ∷ []))) ≡ true
unfolding keep any row_of
holds-append e now now' s [] l =
    ground (arith, l, list_beq_refl e.id, list_beq_refl e.json, list_beq_refl e.to)
holds-append e now now' s (row ∷ rows) l =
    let rest = holds-append e now now' s rows l in
    elim (Bool-cases (is_live now' row)) [
      | inl live ↦ rw live (ground (arith, rest))
      | inr expired ↦ rw expired rest
    ]

read-write :
    (handle : Text) (now : ℕ) (rows : List Row) (s : Spool)
    → read handle now (write handle rows s) ≡ keep (is_live now) rows
unfolding read write
read-write handle now rows s = rw (get-put_self s.files (path handle) rows) refl

posted :
    (e : Envelope) (now : ℕ) (s : Spool) (id : Text)
    → (post e now s).0 ≡ ok id
    → (post e now s).1 ≡ write e.to (read e.to now s ++ row_of e now s ∷ []) s
unfolding post
posted e now s id done = ground (arith, done)

-- An envelope that was taken is given to its recipient at the next poll, if that is before it
-- expires.
pub poll-post :
    (e : Envelope) (now now' : ℕ) (s : Spool) (id : Text)
    → (post e now s).0 ≡ ok id
    → now' < now + s.ttl
    → holds e (polled (poll e.to now' (post e now s).1).0) ≡ true
unfolding poll
poll-post e now now' s id done l =
    rw
      (
        poll,
        posted e now s id done,
        read-write e.to now' (read e.to now s ++ row_of e now s ∷ []) s,
      )
      (holds-append e now now' s (read e.to now s) l)

-- ===== src/Http/Guard.antt =====
-- Who may change the bot's state over HTTP, and what a request can change it to.
use outbound_api.Prelude.{
  ◌≡◌, refl, ap, ◌↔◌, ◌⊎◌, inl, inr, true, none, some, [], ◌∷◌, ◌++◌, arith, Bool-cases,
  Option-cases,
}
use outbound_api.Bot.{
  Outcome, Failure, done, refused, already_running, not_running, already_stopped, State, Edge,
  pauses, resumes, restarts, halts, halts_paused, start, pause, stop,
}
use outbound_api.Http.{
  Bytes, bytes_eq, strip, trim_prefix, bearer, Method, post, other_method, Request, Response,
  Handler, require_api_key, error_response, Route, serve, handle_start, handle_pause, on_post,
  answer, reply, method_not_allowed, handle_stop, handle_status, to_start, to_pause, to_stop,
  to_status,
}

bytes_eq_refl : (a : Bytes) → bytes_eq a a ≡ true
unfolding bytes_eq
bytes_eq_refl [] = refl
bytes_eq_refl (x ∷ a) = ground (arith, bytes_eq_refl a)

bytes_eq→eq : (a b : Bytes) → bytes_eq a b ≡ true → a ≡ b
unfolding bytes_eq
bytes_eq→eq [] [] h = refl
bytes_eq→eq [] (y ∷ b) h = cc
bytes_eq→eq (x ∷ a) [] h = cc
bytes_eq→eq (x ∷ a) (y ∷ b) h = ground (arith, bytes_eq→eq a b)

strip-some : (p s rest : Bytes) → strip p s ≡ some rest → s ≡ p ++ rest
unfolding strip
strip-some [] s rest h = ground arith
strip-some (x ∷ p) [] rest h = cc
strip-some (x ∷ p) (c ∷ s) rest h = ground (arith, strip-some p s rest)

-- The headers that the middleware is to let pass.
abbrev Passes : Bytes → Bytes → Type 0
Passes key header = (header ≡ bearer ++ key) ⊎ (header ≡ key) × (strip bearer key ≡ none)

-- The middleware lets a header pass exactly if it is the key behind "Bearer ", or the bare key where
-- the key does not begin with "Bearer ".
Passes-iff :
    (key header : Bytes) → (bytes_eq (trim_prefix header bearer) key ≡ true) ↔ Passes key header
unfolding trim_prefix
Passes-iff key header = (there, back)
  where
    there : bytes_eq (trim_prefix header bearer) key ≡ true → Passes key header
    there h = elim (Option-cases (strip bearer header)) [
      | inl bare ↦
          let same : header ≡ key = bytes_eq→eq header key (rw bare at h) in
          inr (same, rw same at bare)
      | inr (rest, behind) ↦
          let same : rest ≡ key = bytes_eq→eq rest key (rw behind at h) in
          inl (rw (← same) (strip-some bearer header rest behind))
    ]

    back : Passes key header → bytes_eq (trim_prefix header bearer) key ≡ true
    back (inl e) = rw e (bytes_eq_refl key)
    back (inr (e, bare)) = rw (e, bare) (bytes_eq_refl key)

-- A method of the controller moves along an edge, or leaves the state alone.
abbrev Acts : (State → Outcome × State) → Type 0
Acts act =
    (s : State) → ((act s).0 ≡ done) × Edge s (act s).1 ⊎ (e : Failure) × (act s ≡ (refused e, s))

start-Acts : Acts start
unfolding start
start-Acts State.running = inr (already_running, refl)
start-Acts State.paused = inl (refl, resumes)
start-Acts State.stopped = inl (refl, restarts)

pause-Acts : Acts pause
unfolding pause
pause-Acts State.running = inl (refl, pauses)
pause-Acts State.paused = inr (not_running, refl)
pause-Acts State.stopped = inr (not_running, refl)

stop-Acts : Acts stop
unfolding stop
stop-Acts State.running = inl (refl, halts)
stop-Acts State.paused = inl (refl, halts_paused)
stop-Acts State.stopped = inr (already_stopped, refl)

-- What a handler may do: nothing, or one edge on a POST, answered 200.
abbrev Moves : Method → State → Response × State → Type 0
Moves m s (a, t) = (t ≡ s) ⊎ Edge s t × (a.code ≡ 200) × (m ≡ post)

on_post-Moves :
    (act : State → Outcome × State) (r : Request) (s : State)
    → Acts act
    → Moves r.method s (on_post act r s)
on_post-Moves act r s acts = go r.method
  where
    act_moves :
        (x : Outcome × State)
        → (x.0 ≡ done) × Edge s x.1 ⊎ (e : Failure) × (x ≡ (refused e, s))
        → Moves post s (answer x)
    act_moves (done, t) (inl (e, edge)) = inr (edge, refl, refl)
    act_moves (refused f, t) (inl (e, edge)) = cc
    act_moves (done, t) (inr (f, e)) = inl (ap (λ (y : Outcome × State). y.1) e)
    act_moves (refused g, t) (inr (f, e)) = inl (ap (λ (y : Outcome × State). y.1) e)

    go :
        (m : Method)
        → Moves m s (elim m [
          | post ↦ answer (act s)
          | other_method ↦ reply 405 (error_response method_not_allowed) s
        ])
    go post = act_moves (act s) (acts s)
    go other_method = inl refl

-- What a guarded request may do.
abbrev pub Guarded : Bytes → Request → State → Response × State → Type 0
Guarded key r s (a, t) =
    (¬ Passes key r.authorization → (a.code ≡ 401) × (t ≡ s))
    × ((t ≡ s) ⊎ Edge s t × (a.code ≡ 200) × (r.method ≡ post) × Passes key r.authorization)

require-Guarded :
    (key : Bytes) (next : Handler) (r : Request) (s : State)
    → Moves r.method s (next r s)
    → Guarded key r s (require_api_key key next r s)
unfolding require_api_key
require-Guarded key next r s moves =
    elim (Bool-cases (bytes_eq (trim_prefix r.authorization bearer) key)) [
      | inl ok ↦ rw ok (
        (λ out. absurd (out ((Passes-iff key r.authorization).0 ok))),
        elim moves [
          | inl same ↦ inl same
          | inr (edge, code, method) ↦
              inr (edge, code, method, (Passes-iff key r.authorization).0 ok)
        ],
      )
      | inr bad ↦ rw bad ((λ out. (refl, refl)), inl refl)
    ]

-- Over every route, a request whose header does not pass is answered 401 and leaves the state alone;
-- and whatever the request, the state changes only on a POST that passes, answered 200, along one
-- edge of the controller's state machine. A header passes if it is the key behind "Bearer ", or the
-- bare key where the key does not begin with "Bearer ".
pub serve-Guarded :
    (key : Bytes) (route : Route) (r : Request) (s : State) → Guarded key r s (serve key route r s)
unfolding serve
serve-Guarded key to_start r s =
    require-Guarded key handle_start r s (unfold handle_start in on_post-Moves start r s start-Acts)
serve-Guarded key to_pause r s =
    require-Guarded key handle_pause r s (unfold handle_pause in on_post-Moves pause r s pause-Acts)
serve-Guarded key to_stop r s =
    require-Guarded key handle_stop r s (unfold handle_stop in on_post-Moves stop r s stop-Acts)
serve-Guarded key to_status r s =
    require-Guarded key handle_status r s (unfold handle_status in inl refl)

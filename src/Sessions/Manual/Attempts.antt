-- ===== src/Sessions/Manual/Attempts.antt =====
-- The attempts of a manual connection: src/sessions/session_manual.cpp.
use bitprim_network.Base.{
  ℕ, zero, suc, ◌+◌, ◌-◌, ◌≡◌, refl, true, false, Option, none, some, List, [], ◌∷◌, ◌==◌, ltb,
  length, get_elem?, All, arith, if◌then◌else◌, Bool-cases, inl, inr, if-both, subst, sym,
}
use bitprim_network.Code.{Code, success, is_error}
use bitprim_network.Network.{Link}
use bitprim_network.Sessions.{delays, cycle_delay}
use bitprim_network.Sessions.Manual.{
  Manual, ManualParts, ManualWait, ManualEvent, connecting, wakes, connects, ends, does, call,
  start_connect, connect, retry, handle_connect, dispatch, end_wait, step, run,
}

module _ (w : ManualParts) where
  open w use {Endpoint, Handler, Address}

  -- The connections of the only wait fail one after the other with these codes, each before the delay that
  -- follows it ends. A failed connection comes with no channel that is used.
  abbrev pub failures : Link Address → List Code → List (ManualEvent Endpoint Handler Address)
  failures unused [] = []
  failures unused (ec ∷ ecs) =
      ends 0 (connects ec success 0 0 unused) ∷ ends 0 wakes ∷ failures unused ecs

  -- The handler is called with this code and no channel, or not at all.
  abbrev pub told :
      Option Handler
      → Option Code
      → List (Option Handler × Code × Option (Link Address))
      → List (Option Handler × Code × Option (Link Address))
  told handler none calls = calls
  told handler (some ec) calls = (handler, ec, none) ∷ calls

  -- The last attempt of those that are left, if there is a limit.
  abbrev pub last : ℕ → List Code → Option Code
  last remaining ecs = if w.manual_attempt_limit == 0 then none else get_elem? ecs remaining

  abbrev pub waiting : Option Code → ℕ
  waiting none = 1
  waiting (some ec) = 0

  -- The session runs and waits for this only, or for nothing.
  abbrev only : ManualWait Endpoint Handler Address → Manual w → Manual w
  only wait s = record s { stopped = false; waits = wait ∷ [] }

  abbrev idle : Manual w → Manual w
  idle s = record s { stopped = false; waits = [] }

  run-failures-idle :
      (unused : Link Address) (ecs : List Code) (s : Manual w)
      → run w (failures unused ecs) (idle s) ≡ idle s
  unfolding run step end_wait
  run-failures-idle unused [] s = refl
  run-failures-idle unused (ec ∷ ecs) s = run-failures-idle unused ecs s

  -- The retries that a failed connection finds left.
  abbrev left : ℕ → ℕ
  left remaining = if w.manual_attempt_limit == 0 then 1 else remaining

  -- The state after a failed connection, and after the delay if one follows.
  abbrev given_up : Code → ℕ → Option Handler → Manual w → Manual w
  given_up ec connector handler s =
      idle (call w handler ec none (record s { unpended = connector ∷ s.unpended }))

  abbrev tried : Code → ℕ → Endpoint → ℕ → Option Handler → Manual w → Manual w
  tried ec connector endpoint remaining handler s =
      only (connecting s.made endpoint (left remaining - 1) handler) (
        does w (delays (cycle_delay w.settings.connect_timeout_seconds ec)) (record s {
          unpended = connector ∷ s.unpended;
          made = s.made + 1;
          pended = s.made ∷ s.pended;
        }))

  step-step :
      (unused : Link Address) (ec : Code) (connector : ℕ) (endpoint : Endpoint) (remaining : ℕ)
      (handler : Option Handler) (s : Manual w)
      → is_error ec ≡ true
      → step w (ends 0 wakes) (
          step w
            (ends 0 (connects ec success 0 0 unused))
            (only (connecting connector endpoint remaining handler) s))
        ≡ (if ltb 0 (left remaining)
            then tried ec connector endpoint remaining handler s
            else given_up ec connector handler s)
  unfolding step end_wait dispatch handle_connect retry start_connect
  step-step unused ec connector endpoint remaining handler s bad =
      elim (Bool-cases (ltb 0 (left remaining))) [
        | inl more ↦ rw (bad, more) refl
        | inr none_left ↦ rw (bad, none_left) refl
      ]

  -- With the handler called, or the connection tried again.
  abbrev Ends : Option Handler → Option Code → Manual w → Manual w → Type 0
  Ends handler result s t =
      (t.calls ≡ told handler result s.calls) × (length t.waits ≡ waiting result)

  get_elem?-pred :
      (n : ℕ) (ec : Code) (ecs : List Code)
      → ltb 0 n ≡ true
      → get_elem? ecs (n - 1) ≡ get_elem? (ec ∷ ecs) n
  get_elem?-pred zero ec ecs e = ground arith
  get_elem?-pred (suc n) ec ecs e = ground arith

  last-left :
      (remaining : ℕ) (ec : Code) (ecs : List Code)
      → ltb 0 (left remaining) ≡ true
      → last (left remaining - 1) ecs ≡ last remaining (ec ∷ ecs)
  last-left remaining ec ecs e = ground (arith, get_elem?-pred remaining ec ecs)

  last-some :
      (remaining : ℕ) (ec : Code) (ecs : List Code)
      → ltb 0 (left remaining) ≡ false
      → last remaining (ec ∷ ecs) ≡ some ec
  last-some zero ec ecs e = ground arith
  last-some (suc remaining) ec ecs e = ground arith

  run-failures :
      (unused : Link Address) (ecs : List Code) (connector : ℕ) (endpoint : Endpoint)
      (remaining : ℕ) (handler : Option Handler) (s : Manual w)
      → All (λ ec. is_error ec ≡ true) ecs
      → Ends handler
          (last remaining ecs)
          s
          (run w (failures unused ecs) (only (connecting connector endpoint remaining handler) s))
  unfolding run
  run-failures unused [] connector endpoint remaining handler s v = (ground arith, ground arith)
  run-failures unused (ec ∷ ecs) connector endpoint remaining handler s (bad, v) =
      let P : Manual w → Type 0 =
        λ t. Ends handler (last remaining (ec ∷ ecs)) s (run w (failures unused ecs) t) in
      subst P (sym (step-step unused ec connector endpoint remaining handler s bad)) (
        if-both P (ltb 0 (left remaining))
          (λ more. rw (sym (last-left remaining ec ecs more)) (
            run-failures unused ecs s.made endpoint (left remaining - 1) handler
              (tried ec connector endpoint remaining handler s) v))
          (λ over.
            rw
              (
                last-some remaining ec ecs over,
                run-failures-idle unused ecs
                    (call w handler ec none (record s { unpended = connector ∷ s.unpended })),
              )
              (refl, refl)))

  -- A session that runs and waits for nothing is asked for a connection, and the connections fail one after
  -- the other, each delay ending before the next. Without a limit of the attempts, it is still trying,
  -- however many have failed, and has not called the handler. With a limit, it is so until as many have
  -- failed as the limit says; then it has called the handler, with the code of the last of these
  -- and no channel, and waits for nothing, however many failures follow.
  pub run-failures-connect :
      (unused : Link Address) (endpoint : Endpoint) (handler : Option Handler) (ecs : List Code)
      (s : Manual w)
      → s.stopped ≡ false
      → s.waits ≡ []
      → All (λ ec. is_error ec ≡ true) ecs
      → let t = run w (failures unused ecs) (connect w endpoint handler s) in
        let result =
          if w.manual_attempt_limit == 0
          then none
          else get_elem? ecs (w.manual_attempt_limit - 1) in
        (t.calls ≡ told handler result s.calls) × (length t.waits ≡ waiting result)
  unfolding connect start_connect
  run-failures-connect unused endpoint handler ecs s running free v =
      rw (running, free)
        (run-failures unused ecs s.made endpoint (w.manual_attempt_limit - 1) handler
          (record s { made = s.made + 1; pended = s.made ∷ s.pended }) v)

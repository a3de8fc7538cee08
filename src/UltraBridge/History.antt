-- ===== src/UltraBridge/History.antt =====
-- ultrabridge/internal/ub/service: the lock over any sequence of operations of the controller.
use station_a.Base.{
  suc, ◌≤◌, length, List, [], ◌∷◌, ◌++◌, ℕ, ◌<◌, String, true, false, ◌==◌, ◌≡◌, ◌⊎◌, inl, inr,
  refl, ap, ◌∙◌, arith, if-both, if-cases, subst, sym, if◌then◌else◌, Result, ok, err,
}
use station_a.AntMode as AntMode
use station_a.AntMode.{lock_of}
use station_a.UltraBridge.Packet.{Packet}
use station_a.UltraBridge.Commands.{cmd_retract, reply_ok}
use station_a.UltraBridge.Lock.{
  Fault, line, reply, Controller, applied, apply_ant_mode, update_latch,
}
use station_a.UltraBridge.Controlling.{
  Rcu, Run, refresh, poll_motor_status, retract, send_frequency, is_swallowed, Extend, tune, turn,
  pass_frequency, pass_mode, carry_out, exchange, asks, set_offline, on_retract, at_frequency,
  ensure_retract,
}
use station_a.UltraBridge.Locking.{
  extends, Kept, Retracted, refresh-Kept, poll_motor_status-Kept, retract-Retracted,
  send_frequency-Extended,
}
use station_a.UltraBridge.Retracting.{
  Quiet, Ensured, SameLock-Quiet, Quiet-trans, ensure_retract-Ensured,
}

-- The bypass is kept or set and no extend was sent, or one was.
abbrev Due : Controller → Controller → Type 0
Due c d =
    (((d.extend_due ≡ c.extend_due) ⊎ (d.extend_due ≡ true)) × (extends d.asked ≡ extends c.asked))
    ⊎ (extends c.asked < extends d.asked)

abbrev Moved : Controller → Controller → Type 0
Moved c d = Quiet c.lk d.lk × Due c d

-- The controller, and the extends that passed its gate and are still to be carried out.
pub record Service : Type 0 where
  pub controller : Controller
  pub passed : List Extend

-- A request that the gate refuses leaves all as it is.
abbrev pub gated : Result Fault Extend → Service → Service
gated (err e) s = s
gated (ok x) s = record s { passed = x ∷ s.passed }

module _ ⦃rcu : Rcu⦄ where
  -- One operation; a request passes the gate in one and is carried out in another, later one.
  pub data Does : Service → Service → Type 0 where
    applies :
        {s : Service} (payload : AntMode.Payload)
        → Does s (record s { controller = apply_ant_mode payload s.controller })
    refreshes : {s : Service} → Does s (record s { controller = (refresh s.controller).1 })
    polls : {s : Service} → Does s (record s { controller = (poll_motor_status s.controller).1 })
    retracts : {s : Service} → Does s (record s { controller = (retract s.controller).1 })
    sets_frequency :
        {s : Service} (now khz : ℕ) (mode : String)
        → Does s (gated (pass_frequency now khz mode s.controller) s)
    sets_mode :
        {s : Service} (now : ℕ) (mode : String) → Does s (gated (pass_mode now mode s.controller) s)
    carries_out :
        {s : Service} (before : List Extend) (x : Extend) (after : List Extend)
        → s.passed ≡ before ++ x ∷ after
        → Does s (record { controller = (carry_out x s.controller).1; passed = before ++ after })
    ensures :
        {s : Service} (now later : ℕ)
        → Does s (record s { controller = ensure_retract now later s.controller })

  -- Any number of operations, the first at the left.
  pub data History : Service → Service → Type 0 where
    stays : {s : Service} → History s s
    first : {s t u : Service} → Does s t → History t u → History s u

  pub Kept-Moved : (c d : Controller) → Kept c d → Moved c d
  Kept-Moved c d (l, e, a) = (SameLock-Quiet c.lk d.lk l, inl (inl e, a))

  pub Retracted-Moved : (c d : Controller) → Retracted c d → Moved c d
  Retracted-Moved c d (l, e, a) = (SameLock-Quiet c.lk d.lk l, inl (e, a))

  send_frequency-Moved : (khz m : ℕ) (c : Controller) → Moved c (send_frequency khz m c).1
  send_frequency-Moved khz m c =
      let (l, a) = send_frequency-Extended khz m c in
      (SameLock-Quiet c.lk (send_frequency khz m c).1.lk l, inr (omega (arith, a)))

  Moved-self : (c : Controller) → Moved c c
  Moved-self c = ((refl, refl, inr refl), inl (inl refl, refl))

  Moved-trans : (c d e : Controller) → Kept c d → Moved d e → Moved c e
  Moved-trans c d e (l, u, a) (q, m) =
      (Quiet-trans c.lk d.lk e.lk (SameLock-Quiet c.lk d.lk l) q, due m)
    where
      due : Due d e → Due c e
      due (inl (inl x, y)) = inl (inl (x ∙ u), y ∙ a)
      due (inl (inr x, y)) = inl (inr x, y ∙ a)
      due (inr x) = inr (omega (arith, a, x))

  at_frequency-Moved :
      (m : ℕ) (c : Controller) (r : Run) → Kept c r.1 → Moved c (at_frequency m r).1
  unfolding at_frequency
  at_frequency-Moved m c (err e, d) k = Kept-Moved c d k
  at_frequency-Moved m c (ok u, d) k =
      if-both (λ (r : Run). Moved c r.1) (d.state.frequency_khz == 0) (Kept-Moved c d k)
        (Moved-trans c d (send_frequency d.state.frequency_khz m d).1 k
          (send_frequency-Moved d.state.frequency_khz m d))

  start : ℕ → Controller → Run
  start khz c = if khz == 0 then refresh c else (ok tt, c)

  start-Kept : (khz : ℕ) (c : Controller) → Kept c (start khz c).1
  unfolding start
  start-Kept khz c =
      if-both (λ (r : Run). Kept c r.1) (khz == 0) {x = refresh c} {y = (ok tt, c)} (refresh-Kept c)
        (inl refl, refl, refl)

  pub carry_out-Moved : (x : Extend) (c : Controller) → Moved c (carry_out x c).1
  unfolding carry_out start
  carry_out-Moved (tune khz m) c =
      if-both (λ (r : Run). Moved c r.1) (is_swallowed khz m c) (Moved-self c)
        (send_frequency-Moved khz m c)
  carry_out-Moved (turn m) c =
      at_frequency-Moved m c (start c.state.frequency_khz c) (start-Kept c.state.frequency_khz c)

  at_frequency-extends :
      (m : ℕ) (c : Controller) (r : Run)
      → Kept c r.1
      → extends (at_frequency m r).1.asked ≤ suc (extends c.asked)
  unfolding at_frequency
  at_frequency-extends m c (err e, d) (l, u, a) = omega (arith, a)
  at_frequency-extends m c (ok u, d) (l, v, a) =
      if-both (λ (r : Run). extends r.1.asked ≤ suc (extends c.asked)) (d.state.frequency_khz == 0)
        (omega (arith, a))
        (let (n, b) = send_frequency-Extended d.state.frequency_khz m d in omega (arith, a, b))

  -- What is carried out sends one change-frequency command at most.
  pub carry_out-extends :
      (x : Extend) (c : Controller) → extends (carry_out x c).1.asked ≤ suc (extends c.asked)
  unfolding carry_out start
  carry_out-extends (tune khz m) c =
      if-both (λ (r : Run). extends r.1.asked ≤ suc (extends c.asked)) (is_swallowed khz m c)
        (omega arith) (let (n, b) = send_frequency-Extended khz m c in omega (arith, b))
  carry_out-extends (turn m) c =
      at_frequency-extends m c (start c.state.frequency_khz c) (start-Kept c.state.frequency_khz c)

  pub apply_ant_mode-Due :
      (payload : AntMode.Payload) (c : Controller)
      → ((apply_ant_mode payload c).extend_due ≡ c.extend_due)
        × ((apply_ant_mode payload c).asked ≡ c.asked)
  unfolding apply_ant_mode applied
  apply_ant_mode-Due payload c = by (AntMode.parse payload)
    where
      ends : Result AntMode.Malformed AntMode.State → Controller
      ends (ok st) = applied st c
      ends (err e) = c

      by :
          (r : Result AntMode.Malformed AntMode.State)
          → ((ends r).extend_due ≡ c.extend_due) × ((ends r).asked ≡ c.asked)
      by (ok st) = (refl, refl)
      by (err e) = (refl, refl)

  pub gated-controller :
      (r : Result Fault Extend) (s : Service) → (gated r s).controller ≡ s.controller
  gated-controller (err e) s = refl
  gated-controller (ok x) s = refl

  Due-same : (c d : Controller) → d ≡ c → Due c d
  Due-same c d e = inl (inl (ap (λ x. x.extend_due) e), ap (λ x. extends x.asked) e)

  Does-Due : {s t : Service} → Does s t → Due s.controller t.controller
  unfolding Ensured
  Does-Due (applies {s} payload) =
      let (e, a) = apply_ant_mode-Due payload s.controller in inl (inl e, ap extends a)
  Does-Due (refreshes {s}) =
      (Kept-Moved s.controller (refresh s.controller).1 (refresh-Kept s.controller)).1
  Does-Due (polls {s}) =
      (Kept-Moved s.controller (poll_motor_status s.controller).1
        (poll_motor_status-Kept s.controller)).1
  Does-Due (retracts {s}) =
      (Retracted-Moved s.controller (retract s.controller).1 (retract-Retracted s.controller)).1
  Does-Due (sets_frequency {s} now khz mode) =
      Due-same s.controller (gated (pass_frequency now khz mode s.controller) s).controller
        (gated-controller (pass_frequency now khz mode s.controller) s)
  Does-Due (sets_mode {s} now mode) =
      Due-same s.controller (gated (pass_mode now mode s.controller) s).controller
        (gated-controller (pass_mode now mode s.controller) s)
  Does-Due (carries_out {s} before x after h) = (carry_out-Moved x s.controller).1
  Does-Due (ensures {s} now later) =
      let (q, e, a) = ensure_retract-Ensured now later s.controller in inl (e, a)

  Due-trans : (c d e : Controller) → Due c d → Due d e → Due c e
  Due-trans c d e (inl (inl x, a)) (inl (inl y, b)) = inl (inl (y ∙ x), b ∙ a)
  Due-trans c d e (inl (inr x, a)) (inl (inl y, b)) = inl (inr (y ∙ x), b ∙ a)
  Due-trans c d e (inl (x, a)) (inl (inr y, b)) = inl (inr y, b ∙ a)
  Due-trans c d e (inl (x, a)) (inr m) = inr (omega (arith, a, m))
  Due-trans c d e (inr l) (inl (y, b)) = inr (omega (arith, l, b))
  Due-trans c d e (inr l) (inr m) = inr (omega (arith, l, m))

  History-Due : {s t : Service} → History s t → Due s.controller t.controller
  History-Due stays = inl (inl refl, refl)
  History-Due (first {s} {t} {u} o h) =
      Due-trans s.controller t.controller u.controller (Does-Due o) (History-Due h)

  not_swallowed : (khz m : ℕ) (c : Controller) → c.extend_due ≡ true → is_swallowed khz m c ≡ false
  unfolding is_swallowed
  not_swallowed khz m c h = ground arith

  carry_out-sends :
      (khz m : ℕ) (c : Controller)
      → c.extend_due ≡ true
      → carry_out (tune khz m) c ≡ send_frequency khz m c
  unfolding carry_out
  carry_out-sends khz m c d = rw (not_swallowed khz m c d) refl

  -- The device accepts the retract.
  abbrev pub Accepts : Controller → Type 0
  Accepts c =
      (p : Packet) × ((rcu.answer (length c.asked) cmd_retract [] ≡ ok p)
        × ((p.command == reply_ok) ≡ true))

  retract-extend_due : (c : Controller) → Accepts c → (retract c).1.extend_due ≡ true
  unfolding retract exchange on_retract update_latch
  retract-extend_due c (p, (h, o)) = subst (λ r. (ends r).1.extend_due ≡ true) (sym h) by
    where
      asked_it : Controller
      asked_it = asks cmd_retract [] c

      ends : Result String Packet → Run
      ends (err e) = (err (line e), set_offline e asked_it)
      ends (ok q) = on_retract q asked_it

      drawn_in : (refresh (update_latch true true asked_it)).1.extend_due ≡ true
      drawn_in = let (l, e, a) = refresh-Kept (update_latch true true asked_it) in e

      by : (on_retract p asked_it).1.extend_due ≡ true
      by =
          if-cases (λ (r : Run). r.1.extend_due ≡ true) (p.command == reply_ok)
            {x = refresh (update_latch true true asked_it)} {y = (err (reply p.command), asked_it)}
            (λ g. drawn_in) (λ g. cc)

  -- Once the device accepted a retract, and as long as no extend was sent since, whatever
  -- else is done, a set frequency that has passed the gate, before or after, is sent when
  -- it is carried out, however near the frequency is.
  pub retract-carry_out :
      (s t : Service) (khz m : ℕ)
      → Accepts s.controller
      → History (record s { controller = (retract s.controller).1 }) t
      → (extends (retract s.controller).1.asked < extends t.controller.asked)
        ⊎ (carry_out (tune khz m) t.controller ≡ send_frequency khz m t.controller)
  retract-carry_out s t khz m k h = by (History-Due h)
    where
      due : (retract s.controller).1.extend_due ≡ true
      due = retract-extend_due s.controller k

      by :
          Due (retract s.controller).1 t.controller
          → (extends (retract s.controller).1.asked < extends t.controller.asked)
            ⊎ (carry_out (tune khz m) t.controller ≡ send_frequency khz m t.controller)
      by (inl (inl e, a)) = inr (carry_out-sends khz m t.controller (e ∙ due))
      by (inl (inr e, a)) = inr (carry_out-sends khz m t.controller e)
      by (inr l) = inl l

-- ===== src/Worker/Closing.antt =====
-- The set-up of the collector (src/model_council/executor.py), its latch, its handler of an exception
-- and its `finally`, as moves of the abstract machine.
use model_council_lab.Action.{Action, ◌>>◌}
use model_council_lab.Prelude.{◌≡◌, List, ℕ, Option, ℤ, false, leb, true, ◌∷◌, [], arith}
use model_council_lab.Worker.{
  Collector, Os, Endpoint, stdin, called, protocol, put, stdout, stderr, ticked, note_exception,
}
use model_council_lab.Worker.Collect.{
  confirm, latch, latched, register_endpoint, release, salvage, select_endpoint, selector_closed,
  set_up, skip_empty_input, take_endpoint, take_selector, waited, setting, may_accept,
}
use model_council_lab.Worker.Machine.{
  Moves, moves_after, close_endpoint-Moves, stay, go, abort_now-Moves, quietly, clear, confirm_reap,
  take_end, clean_call-Moves, note_exception-Moves,
}
use model_council_lab.Errors.{Check, Exc, Result, ok, err}
use model_council_lab.Run.Terminal.{if_of}
use model_council_lab.Worker.Traced.{proceed-Moves}

-- Nothing was closed.
abbrev pub IsFresh : Collector → Type 0
IsFresh s = (name : Endpoint) → s.closes name ≡ 0

-- A step of the set-up.
abbrev SetsUp : Action Collector Unit → Type 0
SetsUp step = (s : Collector) → IsFresh s → Moves s (step s).1 × IsFresh (step s).1

fresh_then :
    (step next : Action Collector Unit) (s : Collector)
    → Moves s (step s).1 × IsFresh (step s).1
    → ((t : Collector) → IsFresh t → Moves t (next t).1)
    → Moves s ((step >> next) s).1
fresh_then step next s (m, f) k =
    proceed-Moves (λ a. next) (step s).0 (step s).1 m (λ a. k (step s).1 f)

module _ (os : Os) where
  take_endpoint-SetsUp : (name : Endpoint) → SetsUp (take_endpoint os name)
  unfolding take_endpoint
  take_endpoint-SetsUp name s f = taken (os.fileno s.calls name)
    where
      taken :
          (r : Check)
          → Moves s
              (setting os r (λ x. record x { is_open = put name true x.is_open }) (called s)).1
            × IsFresh
                (setting os r (λ x. record x { is_open = put name true x.is_open }) (called s)).1
      taken (ok t) = (go (quietly (omega arith)) (go (take_end name (f name)) stay), f)
      taken (err e) = (go (quietly (omega arith)) stay, f)

  take_selector-SetsUp : SetsUp (take_selector os)
  unfolding take_selector
  take_selector-SetsUp s f = taken (os.new_selector s.calls)
    where
      taken :
          (r : Check)
          → Moves s (setting os r (λ x. record x { has_selector = true }) (called s)).1
            × IsFresh (setting os r (λ x. record x { has_selector = true }) (called s)).1
      taken (ok t) = (go (quietly (omega arith)) stay, f)
      taken (err e) = (go (quietly (omega arith)) stay, f)

  select_endpoint-SetsUp : (name : Endpoint) → SetsUp (select_endpoint os name)
  unfolding select_endpoint
  select_endpoint-SetsUp name s f = selected (os.register s.calls name)
    where
      selected :
          (r : Check)
          → Moves s
              (setting os r
                (λ x. record x { registered = put name true x.registered })
                (called s)).1
            × IsFresh
                (setting os r
                  (λ x. record x { registered = put name true x.registered })
                  (called s)).1
      selected (ok t) = (go (quietly (omega arith)) stay, f)
      selected (err e) = (go (quietly (omega arith)) stay, f)

  register_endpoint-SetsUp : (name : Endpoint) → SetsUp (register_endpoint os name)
  unfolding register_endpoint
  register_endpoint-SetsUp name s f = set (os.set_blocking s.calls name)
    where
      set :
          (r : Check)
          → Moves s ((setting os r (λ x. x) >> select_endpoint os name) (called s)).1
            × IsFresh ((setting os r (λ x. x) >> select_endpoint os name) (called s)).1
      set (ok t) = (
        go (quietly (omega arith)) (select_endpoint-SetsUp name (called s) f).0,
        (select_endpoint-SetsUp name (called s) f).1,
      )
      set (err e) = (go (quietly (omega arith)) stay, f)

  skip_empty_input-Moves :
      (input : List ℕ) (s : Collector) → Moves s (skip_empty_input os input s).1
  unfolding skip_empty_input
  skip_empty_input-Moves [] s = close_endpoint-Moves os stdin s
  skip_empty_input-Moves (byte ∷ bytes) s = stay

  pub set_up-Moves : (input : List ℕ) (s : Collector) → IsFresh s → Moves s (set_up os input s).1
  unfolding set_up
  set_up-Moves input s f =
      fresh_then (take_endpoint os stdin) _ s (take_endpoint-SetsUp stdin s f) (λ s f.
        fresh_then (take_endpoint os stdout) _ s (take_endpoint-SetsUp stdout s f) (λ s f.
          fresh_then (take_endpoint os stderr) _ s (take_endpoint-SetsUp stderr s f) (λ s f.
            fresh_then (take_selector os) _ s (take_selector-SetsUp s f) (λ s f.
              fresh_then (register_endpoint os stdin) _ s (register_endpoint-SetsUp stdin s f)
                (λ s f.
                  fresh_then (register_endpoint os stdout) _ s (register_endpoint-SetsUp stdout s f)
                    (λ s f.
                      fresh_then (register_endpoint os stderr) _ s
                        (register_endpoint-SetsUp stderr s f)
                        (λ s f.
                          fresh_then (register_endpoint os protocol) _ s
                            (register_endpoint-SetsUp protocol s f)
                            (λ s f. skip_empty_input-Moves input s))))))))

  selector_closed-Moves : (s : Collector) → Moves s (selector_closed os s)
  unfolding selector_closed
  selector_closed-Moves s =
      if_of (Moves s) s.has_selector (λ t. clean_call-Moves (os.close_selector s.calls) s)
        (λ f. stay)

  pub release-Moves : (s : Collector) → Moves s (release os s)
  unfolding release
  release-Moves s = moves_after (close_endpoint-Moves os protocol s) (
      moves_after (close_endpoint-Moves os stdin _) (
        moves_after (close_endpoint-Moves os stdout _)
          (moves_after (close_endpoint-Moves os stderr _) (selector_closed-Moves _))))

  waited-Moves : (r : Result ℤ) (s : Collector) → s.reaped ≡ false → Moves s (waited os r s)
  unfolding waited
  waited-Moves (ok code) s h = go (confirm_reap code h) stay
  waited-Moves (err e) s h = note_exception-Moves e s

  pub confirm-Moves : (s : Collector) → Moves s (confirm os s)
  unfolding confirm
  confirm-Moves s =
      if_of (Moves s) s.reaped (λ t. stay) (λ f. go (quietly (omega arith)) (waited-Moves _ _ f))

  pub salvage-Moves : (e : Exc) (s : Collector) → Moves s (salvage os e s)
  unfolding salvage
  salvage-Moves e s =
      moves_after (note_exception-Moves e s)
        (moves_after (abort_now-Moves os _ (note_exception e s)) (confirm-Moves _))

  latched-Moves : (deadline now : ℕ) (s : Collector) → Moves s (latched os deadline now s).1
  unfolding latched
  latched-Moves deadline now s =
      if_of (λ (x : Option (List ℕ) × Collector). Moves s x.1) (leb deadline now)
        (λ t. abort_now-Moves os "deadline" s) (λ f. go clear stay)

  pub latch-Moves : (deadline : ℕ) (s : Collector) → Moves s (latch os deadline s).1
  unfolding latch
  latch-Moves deadline s =
      if_of (λ (x : Option (List ℕ) × Collector). Moves s x.1) (may_accept os s)
        (λ t. go (quietly (omega arith)) (latched-Moves deadline _ (ticked s))) (λ f. go clear stay)

-- ===== src/Client/Expiry.antt =====
-- The timeouts of src/net/client.rs: `timeout_connection` by what filters of the listeners give.
use mathlib.Core.List.{filter_map}
use mathlib.Core.Option.{Option-elim}
use packet_test.Handler.{HandlerError}
use packet_test.Common.{
  ltb, ◌+◌, false, Bool, ℕ, ◌≡◌, refl, ap, ◌∙◌, arith, List, [], ◌∷◌, Option, none, some,
  if◌then◌else◌, Bool-cases, inl, inr,
}
use packet_test.Client.{ServerState, ClientState, ServerListener, Client, disconnected}
use packet_test.Client.Update.{timeout_each, timeout_connection, is_expired}

-- The state of a client with such errors.
abbrev pub state_after : {A : Type 0} → ClientState → List A → ClientState
state_after state [] = state
state_after state (e ∷ es) = disconnected

module _ {E PacketId : Type 0} where
  -- A compatible listener was last heard from longer ago than the timeout, where there is one.
  abbrev pub is_overdue : Option ℕ → ℕ → ServerState E PacketId → Bool
  is_overdue none now state = false
  is_overdue (some timeout) now (ServerState.pending_version last) = false
  is_overdue (some timeout) now (ServerState.incompatible e) = false
  is_overdue (some timeout) now (ServerState.compatible b last) = ltb (last + timeout) now

  is_expired-is_overdue :
      (timeout : Option ℕ) (now : ℕ) (state : ServerState E PacketId)
      → is_expired timeout now state ≡ is_overdue timeout now state
  unfolding is_expired
  is_expired-is_overdue none now (ServerState.pending_version last) = refl
  is_expired-is_overdue none now (ServerState.incompatible e) = refl
  is_expired-is_overdue none now (ServerState.compatible b last) = refl
  is_expired-is_overdue (some timeout) now (ServerState.pending_version last) = refl
  is_expired-is_overdue (some timeout) now (ServerState.incompatible e) = refl
  is_expired-is_overdue (some timeout) now (ServerState.compatible b last) = ground arith

  -- The error of a listener that has timed out.
  abbrev pub overdue : Option ℕ → ℕ → ServerListener E PacketId → Option (HandlerError PacketId)
  overdue timeout now l =
      if is_overdue timeout now l.state then some (HandlerError.timeout l.server_addr) else none

  -- A listener that has not.
  abbrev pub alive : Option ℕ → ℕ → ServerListener E PacketId → Option (ServerListener E PacketId)
  alive timeout now l = if is_overdue timeout now l.state then none else some l

  timeout_each_filtered :
      (timeout : Option ℕ) (now : ℕ) (ls : List (ServerListener E PacketId))
      → ((timeout_each timeout now ls).0 ≡ filter_map (overdue timeout now) ls)
        × ((timeout_each timeout now ls).1 ≡ filter_map (alive timeout now) ls)
  unfolding timeout_each filter_map Option-elim
  timeout_each_filtered timeout now [] = (refl, refl)
  timeout_each_filtered timeout now (l ∷ ls) = elim (Bool-cases (is_expired timeout now l.state)) [
    | inl h ↦
        ground (
          arith,
          h,
          is_expired-is_overdue timeout now l.state,
          timeout_each_filtered timeout now ls,
        )
    | inr h ↦
        ground (
          arith,
          h,
          is_expired-is_overdue timeout now l.state,
          timeout_each_filtered timeout now ls,
        )
  ]

  timeout_each_any :
      (timeout : Option ℕ) (now : ℕ) (ls : List (ServerListener E PacketId)) (state : ClientState)
      → (if (timeout_each timeout now ls).2 then disconnected else state)
        ≡ state_after state (timeout_each timeout now ls).0
  unfolding timeout_each
  timeout_each_any timeout now [] state = refl
  timeout_each_any timeout now (l ∷ ls) state = elim (Bool-cases (is_expired timeout now l.state)) [
    | inl h ↦ ground (arith, h)
    | inr h ↦ ground (arith, h, timeout_each_any timeout now ls state)
  ]

  -- `timeout_connection` reports just the listeners that have timed out, which are the compatible ones
  -- that were last heard from longer ago than the timeout, in their order, keeps just the others, and
  -- disconnects the client if it reports any of them, be it that of the connection or not.
  pub timeout_connection_filtered :
      (c : Client E PacketId) (now : ℕ)
      → ((timeout_connection c now).0 ≡ filter_map (overdue c.config.timeout now) c.listeners)
        × ((timeout_connection c now).1.listeners
            ≡ filter_map (alive c.config.timeout now) c.listeners)
        × ((timeout_connection c now).1.state
            ≡ state_after c.state (filter_map (overdue c.config.timeout now) c.listeners))
  unfolding timeout_connection
  timeout_connection_filtered c now =
      let (errors, kept) = timeout_each_filtered c.config.timeout now c.listeners in
      (
        errors,
        kept,
        timeout_each_any c.config.timeout now c.listeners c.state ∙ ap (state_after c.state) errors,
      )

-- ===== src/Client/Reach.antt =====
-- The client of src/net/client.rs from its start: the calls of its user as steps, the state machine
-- that they follow, and what holds after any of them.
use packet_test.Common.{ok, arith, ℕ, ◌≡◌, sym, ap, ◌∙◌, arith, List, some, Result, inl, inr}
use packet_test.Common.Dict.{Ord}
use packet_test.Config.{ClientConfig}
use packet_test.Socket.{SocketAddr, UdpSocket, IoError}
use packet_test.Packet.Kind.{Uuid}
use packet_test.Packet.Packets.{Packets, Rkyv}
use packet_test.Client.{
  ClientState, Client, Compatibility, ConnectError, QueryError, SendError, disconnected, connecting,
  connected, disconnecting, with_config,
}
use packet_test.Client.Requests.{listen, forget, forget_all, refresh_all}
use packet_test.Client.Connection.{query, connect, disconnect, send}
use packet_test.Client.Receive.{Call, ClientHandler, update}
use packet_test.Client.Roster.{listeners_of}
use mathlib.Core.Path.{subst, subst₂}
use packet_test.Client.Moves.{Received, update-Received}
use packet_test.Client.Requested.{
  IsDistinct, get_or_add_listener-IsDistinct, get_or_add_listener_state, listen_state,
  forget-IsDistinct, forget_state, forget_all-IsDistinct, forget_all_state, refresh_all-IsDistinct,
  refresh_all_state, query-IsDistinct, query_state,
}
use packet_test.Client.Sending.{
  connect-IsDistinct, connect_state, disconnect-IsDistinct, disconnect_state, send-IsDistinct,
  send_state,
}
use packet_test.Client.Kept.{update-IsDistinct}

-- Which call a step is; `managing` is any that is about listeners only.
pub data Request : Type 0 where
  connecting_to : Request
  disconnecting_from : Request
  sending : Request
  updating : Request
  managing : Request

-- The abstract connection: what each call may do to its state.
pub data Move : Request → ClientState → ClientState → Type 0 where
  rests : {k : Request} (s : ClientState) → Move k s s
  requests : Move connecting_to disconnected connecting
  leaves : Move disconnecting_from connected disconnecting
  fails_leaving : Move disconnecting_from connected disconnected
  fails_sending : Move sending connected disconnected
  receives : {s t : ClientState} → Received s t → Move updating s t

Move-same : (k : Request) (s t : ClientState) → t ≡ s → Move k s t
Move-same k s t h = subst (λ x. Move k s x) (sym h) (rests s)

module _ {E PacketId : Type 0} where
  with_config-IsDistinct :
      (c : Client E PacketId) (bound : Result IoError UdpSocket) (config : ClientConfig)
      → with_config bound config ≡ ok c
      → IsDistinct c
  unfolding with_config listeners_of
  with_config-IsDistinct c bound config h b = ground (arith, h)

module _ {P : Packets} {PacketId : Type 0} ⦃o : Ord PacketId⦄ ⦃u : Uuid PacketId⦄ (rkyv : Rkyv P)
    (handler : ClientHandler P PacketId) where
  -- A call of the user that does not panic, whatever it answers.
  pub data Step
      : Client P.CompatibilityError PacketId → Client P.CompatibilityError PacketId → Type 0 where
    listened :
        {c c' : Client P.CompatibilityError PacketId} (a : SocketAddr) (now : ℕ)
        (r : Result IoError (Compatibility P.CompatibilityError))
        → listen c a now ≡ some (r, c')
        → Step c c'
    forgot : {c : Client P.CompatibilityError PacketId} (a : SocketAddr) → Step c (forget c a).1
    all_forgotten :
        {c c' : Client P.CompatibilityError PacketId} → forget_all c ≡ some c' → Step c c'
    refreshed : {c : Client P.CompatibilityError PacketId} (now : ℕ) → Step c (refresh_all c now).1
    queried :
        {c c' : Client P.CompatibilityError PacketId} (a : SocketAddr) (id : PacketId)
        (writes : List (List ℕ)) (now : ℕ) (r : Result QueryError PacketId)
        → query c a id writes now ≡ some (r, c')
        → Step c c'
    requested :
        {c c' : Client P.CompatibilityError PacketId} (peer : Result IoError SocketAddr)
        (id : PacketId) (writes : List (List ℕ)) (now : ℕ) (r : Result ConnectError PacketId)
        → connect c peer id writes now ≡ some (r, c')
        → Step c c'
    left :
        {c c' : Client P.CompatibilityError PacketId} (id : PacketId) (writes : List (List ℕ))
        (now : ℕ) (r : Result SendError PacketId)
        → disconnect c id writes now ≡ some (r, c')
        → Step c c'
    sent :
        {c c' : Client P.CompatibilityError PacketId} (id : PacketId) (writes : List (List ℕ))
        (now : ℕ) (r : Result SendError PacketId)
        → send c id writes now ≡ some (r, c')
        → Step c c'
    updated :
        {c c' : Client P.CompatibilityError PacketId} (fuel : ℕ) (log log' : List (Call P PacketId))
        (now : ℕ)
        → update rkyv handler fuel log c now ≡ some (some (log', c'))
        → Step c c'

  abbrev pub request : {c c' : Client P.CompatibilityError PacketId} → Step c c' → Request
  request (listened a now r h) = managing
  request (forgot a) = managing
  request (all_forgotten h) = managing
  request (refreshed now) = managing
  request (queried a id writes now r h) = managing
  request (requested peer id writes now r h) = connecting_to
  request (left id writes now r h) = disconnecting_from
  request (sent id writes now r h) = sending
  request (updated fuel log log' now h) = updating

  -- The clients that `with_config` and such steps lead to.
  pub data Reachable : Client P.CompatibilityError PacketId → Type 0 where
    created :
        {c : Client P.CompatibilityError PacketId} (bound : Result IoError UdpSocket)
        (config : ClientConfig)
        → with_config bound config ≡ ok c
        → Reachable c
    stepped : {c c' : Client P.CompatibilityError PacketId} → Reachable c → Step c c' → Reachable c'

  Step-IsDistinct :
      {c c' : Client P.CompatibilityError PacketId} → Step c c' → IsDistinct c → IsDistinct c'
  Step-IsDistinct {c} {c'} (listened a now r h) v =
      subst (λ x. IsDistinct x) (sym (listen_state c c' a now r h))
        (get_or_add_listener-IsDistinct c a now v)
  Step-IsDistinct {c} (forgot a) v = forget-IsDistinct c a v
  Step-IsDistinct {c} {c'} (all_forgotten h) v = forget_all-IsDistinct c c' h v
  Step-IsDistinct {c} (refreshed now) v = refresh_all-IsDistinct c now v
  Step-IsDistinct {c} {c'} (queried a id writes now r h) v =
      query-IsDistinct c c' a id writes now r h v
  Step-IsDistinct {c} {c'} (requested peer id writes now r h) v =
      connect-IsDistinct c c' peer id writes now r h v
  Step-IsDistinct {c} {c'} (left id writes now r h) v =
      disconnect-IsDistinct c c' id writes now r h v
  Step-IsDistinct {c} {c'} (sent id writes now r h) v = send-IsDistinct c c' id writes now r h v
  Step-IsDistinct {c} {c'} (updated fuel log log' now h) v =
      update-IsDistinct rkyv handler fuel log c now log' c' h v

  -- Whatever the user calls, with all the datagrams that its updates handle, the client never comes
  -- to listen to a server twice.
  pub Reachable-IsDistinct : {c : Client P.CompatibilityError PacketId} → Reachable c → IsDistinct c
  Reachable-IsDistinct {c} (created bound config h) = with_config-IsDistinct c bound config h
  Reachable-IsDistinct (stepped r step) = Step-IsDistinct step (Reachable-IsDistinct r)

  -- A call of the user that does not panic leaves the state of the connection, but for these moves: only
  -- `connect` leads from disconnected to connecting; only `disconnect` leads from connected to
  -- disconnecting; it or `send` may lead from connected to disconnected; and only an update, with all
  -- its datagrams, leads from connecting to connected, or to disconnected from anywhere.
  pub Step-Move :
      {c c' : Client P.CompatibilityError PacketId} (step : Step c c')
      → Move (request step) (Client.state c) (Client.state c')
  Step-Move {c} {c'} (listened a now r h) =
      Move-same managing c.state c'.state
        (ap (λ x. Client.state x) (listen_state c c' a now r h) ∙ get_or_add_listener_state c a now)
  Step-Move {c} (forgot a) = Move-same managing c.state (forget c a).1.state (forget_state c a)
  Step-Move {c} {c'} (all_forgotten h) =
      Move-same managing c.state c'.state (forget_all_state c c' h)
  Step-Move {c} (refreshed now) =
      Move-same managing c.state (refresh_all c now).1.state (refresh_all_state c now)
  Step-Move {c} {c'} (queried a id writes now r h) =
      Move-same managing c.state c'.state (query_state c c' a id writes now r h)
  Step-Move {c} {c'} (requested peer id writes now r h) =
      elim (connect_state c c' peer id writes now r h) [
        | inl same ↦ Move-same connecting_to c.state c'.state same
        | inr (before, after) ↦
            subst₂ (λ x y. Move connecting_to x y) (sym before) (sym after) requests
      ]
  Step-Move {c} {c'} (left id writes now r h) = elim (disconnect_state c c' id writes now r h) [
    | inl same ↦ Move-same disconnecting_from c.state c'.state same
    | inr (before, inl after) ↦
        subst₂ (λ x y. Move disconnecting_from x y) (sym before) (sym after) leaves
    | inr (before, inr after) ↦
        subst₂ (λ x y. Move disconnecting_from x y) (sym before) (sym after) fails_leaving
  ]
  Step-Move {c} {c'} (sent id writes now r h) = elim (send_state c c' id writes now r h) [
    | inl same ↦ Move-same sending c.state c'.state same
    | inr (before, after) ↦ subst₂ (λ x y. Move sending x y) (sym before) (sym after) fails_sending
  ]
  Step-Move {c} {c'} (updated fuel log log' now h) =
      receives (update-Received rkyv handler fuel log c now log' c' h)

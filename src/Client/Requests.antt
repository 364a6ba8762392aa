-- ===== src/Client/Requests.antt =====
-- What the user of src/net/client.rs asks of a client's listeners. A panic is `none`.
use packet_test.Common.{
  ℕ, List, [], ◌∷◌, ◌++◌, none, some, Result, ok, err, true, false, ◌&&◌, not, ◌==◌, if◌then◌else◌,
  length, get_elem?, set,
}
use packet_test.Socket.{SocketAddr, UdpSocket, IoError}
use packet_test.Packet.Serialize.{Panicking}
use packet_test.Client.{
  ServerState, ServerListener, Client, Compatibility, ForgetError, is_disconnected, swap_remove,
  compatibility_of, position, pending_version_query,
}

module _ {E PacketId : Type 0} where
  -- `get_or_add_listener`: the index of the listener.
  unfoldable pub get_or_add_listener :
      Client E PacketId → SocketAddr → ℕ → Result IoError ℕ × Client E PacketId
  get_or_add_listener c server_addr now = elim (position server_addr c.listeners) [
    | some index ↦ (ok index, c)
    | none ↦
        let (r, socket') : Result IoError (ServerState E PacketId) × UdpSocket =
          pending_version_query c.socket server_addr now in
        elim r [
          | err e ↦ (err e, record c { socket = socket' })
          | ok state ↦ (
            ok (length c.listeners),
            record c {
              socket = socket';
              listeners = c.listeners ++ (record { server_addr = server_addr; state = state } ∷ []);
            },
          )
        ]
  ]

  -- `listen`. The index is in range; `none` would be the panic of an index that is not.
  unfoldable pub listen :
      Client E PacketId
      → SocketAddr
      → ℕ
      → Panicking (Result IoError (Compatibility E) × Client E PacketId)
  listen c server_addr now =
      let (r, c') = get_or_add_listener c server_addr now in
      elim r [
        | err e ↦ some (err e, c')
        | ok index ↦ elim (get_elem? c'.listeners index) [
          | none ↦ none
          | some l ↦ some (ok (compatibility_of l.state), c')
        ]
      ]

  unfoldable pub forget :
      Client E PacketId → SocketAddr → Result ForgetError (Unit {0}) × Client E PacketId
  forget c server_addr = elim (position server_addr c.listeners) [
    | none ↦ (err ForgetError.unknown_server, c)
    | some index ↦
        if index == 0 && not (is_disconnected c.state)
        then (err ForgetError.not_disconnected, c)
        else (ok tt, record c { listeners = swap_remove c.listeners index })
  ]

  -- `drain(1..)` panics on an empty vector.
  unfoldable pub forget_all : Client E PacketId → Panicking (Client E PacketId)
  forget_all c = elim (is_disconnected c.state) [
    | true ↦ some (record c { listeners = [] })
    | false ↦ elim c.listeners [ [] ↦ none | l ∷ ls ↦ some (record c { listeners = l ∷ [] }) ]
  ]

  -- The loop of `refresh_all`, which stops at the first error.
  unfoldable pub refresh_each :
      List (ServerListener E PacketId)
      → UdpSocket
      → ℕ
      → Result IoError (Unit {0}) × List (ServerListener E PacketId) × UdpSocket
  refresh_each [] socket now = (ok tt, [], socket)
  refresh_each (l ∷ ls) socket now =
      let (r, socket') : Result IoError (ServerState E PacketId) × UdpSocket =
        pending_version_query socket l.server_addr now in
      let (r', ls', socket'') = refresh_each ls socket' now in
      elim r [
        | err e ↦ (err e, l ∷ ls, socket')
        | ok state ↦ (r', record l { state = state } ∷ ls', socket'')
      ]

  unfoldable pub refresh_all : Client E PacketId → ℕ → Result IoError (Unit {0}) × Client E PacketId
  refresh_all c now =
      let (r, listeners', socket') = refresh_each c.listeners c.socket now in
      (r, record c { listeners = listeners'; socket = socket' })

  abbrev pub with_state :
      Client E PacketId
      → ℕ
      → ServerListener E PacketId
      → ServerState E PacketId
      → UdpSocket
      → Client E PacketId
  with_state c index l state socket = record c {
    listeners = set c.listeners index (record l { state = state });
    socket = socket;
  }

-- ===== src/Tvlv/Receive.antt =====
-- main.c, received containers: the registered handlers, and the loop that parses a buffer and
-- calls them.
pub mod Parse
pub mod Calls
pub mod Ogm
use Prim.Native.Nat.{bit_or}
use batman_adv.Common.{
  ℕ, zero, suc, ◌+◌, ◌*◌, Bool, true, false, ◌&&◌, not, ◌==◌, ltb, if◌then◌else◌, List, [], ◌∷◌,
  ◌++◌, Option, none, some, length, take, drop, reverse,
}

-- `struct batadv_tvlv_handler`: which callbacks are set, and the two flags.
pub record Handler : Type 0 where
  pub type : ℕ
  pub version : ℕ
  pub ogm_handler : Bool
  pub unicast_handler : Bool
  pub cifnotfnd : Bool
  pub called : Bool

-- A call of a callback, with the type and version of its handler.
pub data Call : Type 0 where
  ogm_call : ℕ → ℕ → List ℕ → Call
  not_found_call : ℕ → ℕ → Call
  unicast_call : ℕ → ℕ → List ℕ → Call

abbrev pub is_for : ℕ → ℕ → Handler → Bool
is_for type version h = (h.type == type) && (h.version == version)

-- `batadv_tvlv_handler_get`
unfoldable pub handler_get : List Handler → ℕ → ℕ → Option Handler
handler_get [] type version = none
handler_get (h ∷ hs) type version =
    if is_for type version h then some h else handler_get hs type version

-- `batadv_tvlv_handler_register`
unfoldable pub handler_register : Bool → List Handler → Handler → List Handler
unfolding handler_get
handler_register alloc hs new = elim (handler_get hs new.type new.version) [
  | some h ↦ hs
  | none ↦ if not alloc then hs else new ∷ hs
]

-- `batadv_tvlv_handler_unregister`
unfoldable pub handler_unregister : List Handler → ℕ → ℕ → List Handler
handler_unregister [] type version = []
handler_unregister (h ∷ hs) type version =
    if is_for type version h then hs else h ∷ handler_unregister hs type version

-- The handler that `batadv_tvlv_handler_get` finds is marked as called.
unfoldable pub mark_called : List Handler → ℕ → ℕ → List Handler
mark_called [] type version = []
mark_called (h ∷ hs) type version =
    if is_for type version h
    then record h { called = true } ∷ hs
    else h ∷ mark_called hs type version

-- Where the containers come from: an OGM, with its originator known or not, or a unicast packet,
-- with source and destination given or not.
pub data Source : Type 0 where
  ogm : Bool → Source
  unicast : Bool → Bool → Source

-- What the loop carries: the value to return, the handlers, and the calls so far, latest first.
pub record Progress : Type 0 where
  pub ret : ℕ
  pub handlers : List Handler
  pub calls : List Call

-- The second loop: handlers that want to know of a missing container are called, and the marks
-- are taken off. Calls in order.
unfoldable pub finish_handlers : List Handler → List Handler × List Call
finish_handlers [] = ([], [])
finish_handlers (h ∷ hs) =
    let (hs', calls) = finish_handlers hs in
    (
      record h { called = false } ∷ hs',
      (if h.cifnotfnd && not h.called then not_found_call h.type h.version ∷ calls else calls),
    )

-- What a unicast callback returns, NET_RX_SUCCESS being 0.
module _ (unicast_ret : Handler → List ℕ → ℕ) where
  -- `batadv_tvlv_call_handler`, its result joined to `ret`.
  unfoldable pub call_handler : Source → Option Handler → List ℕ → Progress → Progress
  unfolding mark_called
  call_handler source none value p = p
  call_handler (ogm orig_node) (some h) value p =
      if not h.ogm_handler
      then p
      else (if not orig_node then p else record p {
        handlers = mark_called p.handlers h.type h.version;
        calls = ogm_call h.type h.version value ∷ p.calls;
      })
  call_handler (unicast src dst) (some h) value p =
      if not src
      then p
      else (if not dst
          then p
          else (if not h.unicast_handler then p else record p {
            ret = bit_or p.ret (unicast_ret h value);
            calls = unicast_call h.type h.version value ∷ p.calls;
          }))

  -- The loop of `batadv_tvlv_containers_process` over the rest of the buffer. One round takes at
  -- least the four bytes of a header, so the length of the buffer is enough fuel.
  unfoldable pub process_loop : ℕ → Source → List ℕ → Progress → Progress
  process_loop (suc fuel) source (t ∷ v ∷ hi ∷ lo ∷ rest) p =
      let len = hi * 256 + lo in
      let next =
        process_loop fuel source (drop len rest)
          (call_handler source (handler_get p.handlers t v) (take len rest) p) in
      if ltb (length rest) len then p else next
  process_loop fuel source buff p = p

  -- `batadv_tvlv_containers_process`: the result, the handlers, and the calls in order.
  unfoldable pub containers_process : Source → List Handler → List ℕ → ℕ × List Handler × List Call
  containers_process source handlers buff =
      let p =
        process_loop (length buff) source buff
          (record { ret = 0; handlers = handlers; calls = [] }) in
      elim source [
        | unicast src dst ↦ (p.ret, p.handlers, reverse p.calls)
        | ogm orig_node ↦
            let (hs, calls) = finish_handlers p.handlers in (0, hs, reverse p.calls ++ calls)
      ]

-- ===== src/Tvlv.antt =====
-- main.c, the containers (type, version, length, value) that travel with an OGM: their list, and
-- how it is written behind the OGM.
pub mod Registry
pub mod Append
pub mod Receive
use batman_adv.Common.{
  ℕ, ◌+◌, ◌*◌, ◌/◌, ◌%◌, ◌^◌, Bool, true, false, ◌&&◌, not, ◌==◌, ltb, if◌then◌else◌, List, [], ◌∷◌,
  ◌++◌, Option, none, some, length, take,
}

-- `struct batadv_tvlv_container`; the length of its header is that of the value.
pub record Container : Type 0 where
  pub type : ℕ
  pub version : ℕ
  pub value : List ℕ

-- sizeof(struct batadv_tvlv_hdr)
abbrev pub hdr_len : ℕ
hdr_len = 4

-- The comparison of both searches through a list.
abbrev pub is_for : ℕ → ℕ → Container → Bool
is_for type version c = (c.type == type) && (c.version == version)

-- `batadv_tvlv_container_get`
unfoldable pub container_get : List Container → ℕ → ℕ → Option Container
container_get [] type version = none
container_get (c ∷ cs) type version =
    if is_for type version c then some c else container_get cs type version

-- `batadv_tvlv_container_list_size`, in 16 bits
unfoldable pub container_list_size : List Container → ℕ
container_list_size [] = 0
container_list_size (c ∷ cs) = (container_list_size cs + hdr_len + length c.value) % 2 ^ 16

-- `batadv_tvlv_container_remove` of what `batadv_tvlv_container_get` found: the first such entry
-- leaves the list; without one nothing happens.
unfoldable pub container_remove : List Container → ℕ → ℕ → List Container
container_remove [] type version = []
container_remove (c ∷ cs) type version =
    if is_for type version c then cs else c ∷ container_remove cs type version

-- `batadv_tvlv_container_unregister`
unfoldable pub container_unregister : List Container → ℕ → ℕ → List Container
container_unregister list type version = container_remove list type version

-- `batadv_tvlv_container_register`; `alloc` tells whether the memory is given. A missing value has
-- length 0.
unfoldable pub container_register : Bool → List Container → ℕ → ℕ → Option (List ℕ) → List Container
container_register alloc list type version tvlv_value =
    if not alloc
    then list
    else (let value : List ℕ = elim tvlv_value [ none ↦ [] | some v ↦ v ] in
        record { type = type; version = version; value = value }
        ∷ container_remove list type version)

-- The bytes of one container: the header, its length in network order, and the value.
abbrev pub container_bytes : Container → List ℕ
container_bytes c = c.type ∷ c.version ∷ (length c.value / 256) ∷ (length c.value % 256) ∷ c.value

-- The loop of `batadv_tvlv_container_ogm_append`.
abbrev pub list_bytes : List Container → List ℕ
list_bytes [] = []
list_bytes (c ∷ cs) = container_bytes c ++ list_bytes cs

-- The packet buffer after `batadv_tvlv_container_ogm_append`: as it was, rewritten, or written
-- past its end.
pub data Buffer : Type 0 where
  kept : Buffer
  filled : List ℕ → Buffer
  overrun : Buffer

-- `batadv_tvlv_realloc_packet_buff` and `batadv_tvlv_container_ogm_append`: the returned size, and
-- the buffer, whose first `packet_min_len` bytes are copied from the old one.
unfoldable pub container_ogm_append : Bool → List Container → List ℕ → ℕ → ℕ × Buffer
container_ogm_append alloc list packet_buff packet_min_len =
    let tvlv_value_len = container_list_size list in
    if not alloc
    then (tvlv_value_len, kept)
    else (if tvlv_value_len == 0
        then (tvlv_value_len, filled (take packet_min_len packet_buff))
        else (if ltb tvlv_value_len (length (list_bytes list))
            then (tvlv_value_len, overrun)
            else (tvlv_value_len, filled (take packet_min_len packet_buff ++ list_bytes list))))

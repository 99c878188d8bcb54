-- ===== src/Tvlv/Append.antt =====
-- The size of the containers and what is written behind the OGM.
use batman_adv.Common.{
  ℕ, ◌%◌, ◌^◌, ◌<◌, ◌≡◌, refl, arith, true, List, [], ◌∷◌, ◌++◌, length, take, length-append,
  append-nil,
}
use batman_adv.Tvlv.{
  Container, filled, list_bytes, container_bytes, container_list_size, container_ogm_append,
}

-- The 16-bit size is the true size modulo 2^16.
pub list_size-length :
    (cs : List Container) → container_list_size cs ≡ length (list_bytes cs) % 2 ^ 16
unfolding container_list_size
list_size-length [] = refl
list_size-length (c ∷ cs) =
    omega (arith, list_size-length cs, length-append (container_bytes c) (list_bytes cs))

-- If the memory is given, containers of less than 2^16 bytes in all are written whole behind the
-- first bytes of the old buffer, and their size is returned.
pub ogm_append_writes :
    (cs : List Container) (buff : List ℕ) (min_len : ℕ)
    → length (list_bytes cs) < 2 ^ 16
    → container_ogm_append true cs buff min_len
      ≡ (length (list_bytes cs), filled (take min_len buff ++ list_bytes cs))
unfolding container_ogm_append
ogm_append_writes [] buff min_len h =
    ground (arith, list_size-length [], append-nil (take min_len buff))
ogm_append_writes (c ∷ cs) buff min_len h = ground (arith, list_size-length (c ∷ cs))

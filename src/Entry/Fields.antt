-- ===== src/Entry/Fields.antt =====
-- What a write of one link of one entry does to each field of every entry.
use user_level_ssd_cache_fra.Common.{ℕ, ◌≡◌, arith, ◌==◌, if◌then◌else◌}
use user_level_ssd_cache_fra.Entry.{EntrySpace, set_next, set_prev, set_hash_next}

module _ (es : EntrySpace) (i v j : ℕ) where
  pub hash_next-set_next : ((set_next es i v).entrys j).hash_next ≡ (es.entrys j).hash_next
  unfolding set_next
  hash_next-set_next = ground arith

  pub prev-set_next : ((set_next es i v).entrys j).prev ≡ (es.entrys j).prev
  unfolding set_next
  prev-set_next = ground arith

  pub next-set_next : ((set_next es i v).entrys j).next ≡ (if i == j then v else (es.entrys j).next)
  unfolding set_next
  next-set_next = ground arith

  pub param-set_next : ((set_next es i v).entrys j).param ≡ (es.entrys j).param
  unfolding set_next
  param-set_next = ground arith

  pub full_path_name-set_next :
      ((set_next es i v).entrys j).full_path_name ≡ (es.entrys j).full_path_name
  unfolding set_next
  full_path_name-set_next = ground arith

  pub cache_page_index-set_next :
      ((set_next es i v).entrys j).cache_page_index ≡ (es.entrys j).cache_page_index
  unfolding set_next
  cache_page_index-set_next = ground arith

  pub hash_next-set_prev : ((set_prev es i v).entrys j).hash_next ≡ (es.entrys j).hash_next
  unfolding set_prev
  hash_next-set_prev = ground arith

  pub prev-set_prev : ((set_prev es i v).entrys j).prev ≡ (if i == j then v else (es.entrys j).prev)
  unfolding set_prev
  prev-set_prev = ground arith

  pub next-set_prev : ((set_prev es i v).entrys j).next ≡ (es.entrys j).next
  unfolding set_prev
  next-set_prev = ground arith

  pub param-set_prev : ((set_prev es i v).entrys j).param ≡ (es.entrys j).param
  unfolding set_prev
  param-set_prev = ground arith

  pub full_path_name-set_prev :
      ((set_prev es i v).entrys j).full_path_name ≡ (es.entrys j).full_path_name
  unfolding set_prev
  full_path_name-set_prev = ground arith

  pub cache_page_index-set_prev :
      ((set_prev es i v).entrys j).cache_page_index ≡ (es.entrys j).cache_page_index
  unfolding set_prev
  cache_page_index-set_prev = ground arith

  pub hash_next-set_hash_next :
      ((set_hash_next es i v).entrys j).hash_next ≡ (if i == j then v else (es.entrys j).hash_next)
  unfolding set_hash_next
  hash_next-set_hash_next = ground arith

  pub prev-set_hash_next : ((set_hash_next es i v).entrys j).prev ≡ (es.entrys j).prev
  unfolding set_hash_next
  prev-set_hash_next = ground arith

  pub next-set_hash_next : ((set_hash_next es i v).entrys j).next ≡ (es.entrys j).next
  unfolding set_hash_next
  next-set_hash_next = ground arith

  pub param-set_hash_next : ((set_hash_next es i v).entrys j).param ≡ (es.entrys j).param
  unfolding set_hash_next
  param-set_hash_next = ground arith

  pub full_path_name-set_hash_next :
      ((set_hash_next es i v).entrys j).full_path_name ≡ (es.entrys j).full_path_name
  unfolding set_hash_next
  full_path_name-set_hash_next = ground arith

  pub cache_page_index-set_hash_next :
      ((set_hash_next es i v).entrys j).cache_page_index ≡ (es.entrys j).cache_page_index
  unfolding set_hash_next
  cache_page_index-set_hash_next = ground arith

pub ruleset link_fields = (
  hash_next-set_next, prev-set_next, next-set_next, param-set_next, full_path_name-set_next,
  cache_page_index-set_next, hash_next-set_prev, prev-set_prev, next-set_prev, param-set_prev,
  full_path_name-set_prev, cache_page_index-set_prev, hash_next-set_hash_next, prev-set_hash_next,
  next-set_hash_next, param-set_hash_next, full_path_name-set_hash_next,
  cache_page_index-set_hash_next,
)

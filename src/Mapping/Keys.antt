-- ===== src/Mapping/Keys.antt =====
-- Searches of the table of a mapping, and entries put into it and taken out of it.
use user_level_ssd_cache_fra.Common.{
  ℕ, ◌<◌, ◌≡◌, refl, Bool, true, false, update, Option, none, some, Text,
}
use user_level_ssd_cache_fra.Config.{cache_block_number}
use user_level_ssd_cache_fra.Entry.{EntrySpace}
use user_level_ssd_cache_fra.HashTable.{HashTable}
use user_level_ssd_cache_fra.HashTable.Table.{Rechained}
use user_level_ssd_cache_fra.Mapping.{Mapping, table_lookup, table_insert, table_remove}
use user_level_ssd_cache_fra.Mapping.Shape.{
  View, Shape, Buckets, Linked-Rechained, IsList-Rechained,
}
use user_level_ssd_cache_fra.Mapping.Moves.{Moved}
use user_level_ssd_cache_fra.Mapping.Buckets.{
  Found, h_lookup-Found, h_insert-Buckets, h_remove-Buckets,
}

module _ {m : Mapping} {v : View} (s : Shape m v) where
  table-Moved :
      {ht' : HashTable} {es' : EntrySpace} (tabled' : ℕ → Bool)
      → Buckets ht' es' tabled'
      → Rechained m.es es'
      → Moved m (record m { table = ht'; es = es' }) (record v { tabled = tabled' })
  table-Moved {ht'} {es'} tabled' b r = record {
    shape = record {
      free = IsList-Rechained s.free r;
      clean = IsList-Rechained s.clean r;
      dirty = IsList-Rechained s.dirty r;
      apart = s.apart;
      buckets = b;
    };
    linked = Linked-Rechained m.es es' r;
    kept = record { num = refl; begin = refl; allocated = refl; wq = refl };
  }

  pub table_lookup-Found :
      (name : Text) (index : ℕ)
      → (r : Option ℕ) × (m' : Mapping) × (table_lookup m name index ≡ some (r, m'))
        × Found m.es v.tabled name index r
        × Moved m m' v
  unfolding table_lookup
  table_lookup-Found name index =
      let (r, ht', es', step, found, b, same) = h_lookup-Found s.buckets name index in
      (r, record m { table = ht'; es = es' }, rw step, found, table-Moved v.tabled b same)

  pub table_insert-Moved :
      (e : ℕ)
      → e < cache_block_number
      → v.tabled e ≡ false
      → Found m.es v.tabled (m.es.entrys e).full_path_name (m.es.entrys e).cache_page_index none
      → Moved m (table_insert m e) (record v { tabled = update v.tabled e true })
  unfolding table_insert
  table_insert-Moved e small out new =
      let (b, same) = h_insert-Buckets s.buckets e small out new in
      table-Moved (update v.tabled e true) b same

  pub table_remove-Moved :
      (e : ℕ)
      → v.tabled e ≡ true
      → (m' : Mapping) × (table_remove m e ≡ some m')
        × Moved m m' (record v { tabled = update v.tabled e false })
  unfolding table_remove
  table_remove-Moved e inside =
      let (ht', es', step, b, same) = h_remove-Buckets s.buckets e inside in
      (record m { table = ht'; es = es' }, rw step, table-Moved (update v.tabled e false) b same)

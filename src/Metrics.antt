-- ===== src/Metrics.antt =====
-- include/ds_metrics.h: the samples and counters of the four kinds of operation that a relay times. Here
-- a record is one step; the four counters are atomic on their own only. The table that is printed is not
-- modelled.
use bpf_arena_data_structure.Base.{ℕ, ◌+◌, ◌%◌, Bool, true, false, ◌==◌, if◌then◌else◌}
use bpf_arena_data_structure.Api.{DsResult, success, u64}

-- `struct ds_metric_sample` (its `success` is `ok`)
pub record Sample : Type 0 where
  pub latency_ns : ℕ
  pub ok : Bool

-- `struct ds_metrics_ring`
pub record Ring : Type 0 where
  pub write_idx : ℕ
  pub count : ℕ
  pub success_count : ℕ
  pub total_latency_ns : ℕ
  pub success_latency_ns : ℕ
  pub samples : ℕ → Sample

-- `enum ds_metrics_category`
pub data Category : Type 0 where
  lkmm_producer user_consumer user_producer lkmm_consumer : Category

-- `struct ds_metrics_store`
abbrev pub Store : Type 0
Store = Category → Ring

abbrev pub same : Category → Category → Bool
same lkmm_producer lkmm_producer = true
same user_consumer user_consumer = true
same user_producer user_producer = true
same lkmm_consumer lkmm_consumer = true
same _ _ = false

-- `result == DS_SUCCESS`
abbrev pub succeeded : DsResult → Bool
succeeded success = true
succeeded _ = false

abbrev pub add_sample : Ring → (latency : ℕ) → (ok : Bool) → Ring
add_sample r latency ok = record {
  write_idx = u64 (r.write_idx + 1);
  samples = λ i.
      if i == r.write_idx % 8192 then record { latency_ns = latency; ok = ok } else r.samples i;
  count = u64 (r.count + 1);
  total_latency_ns = u64 (r.total_latency_ns + latency);
  success_count = if ok then u64 (r.success_count + 1) else r.success_count;
  success_latency_ns = if ok then u64 (r.success_latency_ns + latency) else r.success_latency_ns;
}

unfoldable pub metrics_record : Store → Category → (latency : ℕ) → DsResult → Store
metrics_record store cat latency result =
    λ c. if same c cat then add_sample (store cat) latency (succeeded result) else store c

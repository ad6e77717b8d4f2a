-- ===== src/Scalability/Partition.antt =====
-- `WorkloadPartitioner` of app/scalability/workload_partitioning.py. The number that SHA-256 gives a
-- text is a parameter. Numbers of partitions are not negative.
use ai_risk_engine.Base.{ℕ, ◌<◌, ◌%◌, ltb, String, ◌≡◌, arith, if◌then◌else◌}
use ai_risk_engine.Error.{error, value_error}
use ai_risk_engine.Exec.{Result, ok, err}

pub record WorkloadPartitioner : Type 0 where
  pub num_partitions : ℕ

-- `__init__`
unfoldable pub new_partitioner : ℕ → Result WorkloadPartitioner
new_partitioner n =
    if ltb n 1
    then err (error value_error "num_partitions must be >= 1")
    else ok record { num_partitions = n }

unfoldable pub get_partition : (String → ℕ) → WorkloadPartitioner → String → ℕ
get_partition sha256 p tenant_id = sha256 tenant_id % p.num_partitions

-- A partitioner that could be made puts every tenant into a partition below the number of partitions
-- that was asked for, whatever the hash.
pub get_partition-bound :
    (sha256 : String → ℕ) (n : ℕ) (p : WorkloadPartitioner) (tenant_id : String)
    → new_partitioner n ≡ ok p
    → get_partition sha256 p tenant_id < n
unfolding new_partitioner get_partition
get_partition-bound sha256 n p tenant_id made = ground arith

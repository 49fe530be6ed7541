-- ===== src/Policy.antt =====
-- The template parameters of ports and queues (core/include/superflow/policy.h).

pub data GetMode : Type 0 where
  blocking latched ready_only at_least_one_new : GetMode

pub data ConnectPolicy : Type 0 where
  single multi : ConnectPolicy

pub data LeakPolicy : Type 0 where
  leaky push_blocking : LeakPolicy

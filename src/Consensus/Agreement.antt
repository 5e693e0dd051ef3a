-- ===== src/Consensus/Agreement.antt =====
-- Several nodes of consensus/src at once: what each has signed, and what follows for certificates.
pub mod Log
pub mod Certified
pub mod Entries
pub mod Correct
pub mod Locks

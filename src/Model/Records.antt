-- ===== src/Model/Records.antt =====
-- The data classes of src/onceproof/model.py. Times are seconds since the epoch.
use onceproof.Base.{ℕ, String, Bool, Option}

pub record ProofClaims : Type 0 where
  pub client_id : String
  pub subject : String
  pub purpose : String
  pub audience : String
  pub issued_at : ℕ
  pub expires_at : ℕ

pub record VerificationWitness : Type 0 where
  pub state : String
  pub verification_id : String
  pub proof_tag : Option String
  pub client_id : Option String
  pub decided_at : ℕ
  pub reason : Option String

pub record VerificationResult : Type 0 where
  pub verified : Bool
  pub reason : Option String
  pub witness : VerificationWitness
  pub claims : Option ProofClaims

pub record ProofReceipt : Type 0 where
  pub state : String
  pub proof_tag : String
  pub client_id : String
  pub subject : String
  pub purpose : String
  pub audience : String
  pub issued_at : ℕ
  pub expires_at : ℕ

pub record IssuedProof : Type 0 where
  pub proof : String
  pub receipt : ProofReceipt

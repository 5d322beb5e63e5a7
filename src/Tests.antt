-- ===== src/Tests.antt =====
-- The parameters of the model at concrete functions, and the theorems at concrete inputs.
pub mod Instances
pub mod Objects
mod ProtocolExamples
mod MessageExamples
mod ClientExamples
mod ServerExamples
mod MotorExamples
mod SystemExamples
mod FileExamples
mod ScanExamples
mod MethodExamples
mod StreamExamples
mod SyntaxExamples

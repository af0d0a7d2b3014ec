-- ===== src/Tests.antt =====
-- Runs of the code and the properties of the development at concrete values.
mod ScannerRuns
mod ParserRuns
mod ParserExamples
mod ScannerExamples
mod ChannelExamples
mod MapExamples
mod VectorExamples
mod ArenaExamples
mod SymTableExamples
mod ResolverExamples
mod SymbolExamples
